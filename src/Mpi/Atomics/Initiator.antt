-- ===== src/Mpi/Atomics/Initiator.antt =====
-- An atomic operation at its initiator: how it starts, and the two events that end it.
use nnti.Base.{
  ℕ, suc, ◌%◌, ◌^◌, ◌≡◌, ◌∙◌, refl, ap, Bool, true, false, none, some, ◌∷◌, ◌==◌, if◌then◌else◌,
  get_elem?, set, get_elem?-set_self, update, update_self, arith, lt_of_get_elem?,
}
use nnti.Types.{NntiResult, ok}
use nnti.Mpi.Event.{
  get_atomic, put_atomic, atomic_event, process_atomic, process_wr, process_event, process_either,
  nnti_wr_of, get_backing, process_data, is_wr_complete,
}
use nnti.Mpi.Initiate.{started, atomics_request_tag, atomics_result_tag}
use nnti.Mpi.Atomics.{atomic_request, start_atomic, atomic_cswap}
use nnti.Mpi.Atomics.Serve.{get_atomic_lem}
use nnti.Mpi.State.{
  fetch_add, buffer_init, send_complete, atomic_cmp_and_swp, AtomicRequestMsg, atomics_send_index,
  atomics_recv_index, Rank, MpiStatus, own, MpiWorkRequest, bop_atomics, mpi_transport, WorkRequest,
}
use nnti.Mpi.Machine.{
  get_wr_lem, get_nnti_wr_lem, post_or_fail_accepted, post_or_fail, >>=-eq_of_some, wr_slot,
  request, result_region, MpiCall, isend, irecv, Env, Atomic, Transport, M, pure, ◌>>=◌, ◌>>◌,
  get_wr, put_wr, get_nnti_wr, put_nnti_wr, read,
}

-- What an operation that started leaves in the user's request.
abbrev pub atomic_user : ℕ → WorkRequest → WorkRequest
atomic_user p user = record user {
  transport_id = mpi_transport;
  reg_buf = none;
  ops = bop_atomics;
  result = ok;
  transport_private = some p;
}

module _ (env : Env) (peer : Rank) (result_atomic wr : ℕ) (s : Transport) (user : WorkRequest)
    (at_wr : s.nnti_wrs wr ≡ some user) (first_ok : env.accepts s.asked ≡ true)
    (second_ok : env.accepts (suc s.asked) ≡ true) where
  start_atomic_lem :
      (msg : AtomicRequestMsg)
      → start_atomic env peer result_atomic wr msg s
        ≡ some (
          ok,
          record s {
            wrs =
                update
                  (update s.wrs s.next_wr (some (atomic_request wr peer result_atomic)))
                  s.next_wr
                  (some (
                    started atomics_send_index atomics_recv_index
                      (atomic_request wr peer result_atomic)));
            next_wr = suc s.next_wr;
            nnti_wrs = update s.nnti_wrs wr (some (atomic_user s.next_wr user));
            atomics_request_msg = msg;
            posted =
                irecv peer atomics_result_tag result_region (wr_slot s.next_wr atomics_recv_index)
                ∷ isend peer atomics_request_tag
                    (request msg)
                    (wr_slot s.next_wr atomics_send_index)
                ∷ s.posted;
            asked = suc (suc s.asked);
          },
        )
  unfolding start_atomic
  start_atomic_lem msg =
      let p : ℕ = s.next_wr in
      let w : MpiWorkRequest = atomic_request wr peer result_atomic in
      let finish : M NntiResult =
        put_wr p (started atomics_send_index atomics_recv_index w)
        >> (get_nnti_wr wr >>= λ user. put_nnti_wr wr (atomic_user p user) >> pure ok) in
      let c : MpiCall =
        isend peer atomics_request_tag (request msg) (wr_slot p atomics_send_index) in
      let d : MpiCall =
        irecv peer atomics_result_tag result_region (wr_slot p atomics_recv_index) in
      let s₁ : Transport = record s {
        wrs = update s.wrs p (some w);
        next_wr = suc p;
        atomics_request_msg = msg;
      } in
      let s₂ : Transport = record s₁ { posted = c ∷ s.posted; asked = suc s.asked } in
      let s₃ : Transport = record s₂ {
        posted = d ∷ c ∷ s.posted;
        asked = suc (suc s.asked);
        wrs =
            update (update s.wrs p (some w)) p
              (some (started atomics_send_index atomics_recv_index w));
      } in
      post_or_fail_accepted env c (post_or_fail env d finish) s₁ first_ok
      ∙ post_or_fail_accepted env d finish s₂ second_ok
      ∙ >>=-eq_of_some (get_nnti_wr wr) (λ user. put_nnti_wr wr (atomic_user p user) >> pure ok) s₃
          (get_nnti_wr_lem wr s₃ user at_wr)

  -- A compare-and-swap whose calls MPI accepts sends its message and posts a receive for the answer,
  -- into the message that all operations share. Its work request waits for the send. Of the two
  -- requests that are under way only the send is marked: the flag of the receive is the ninth bit,
  -- which the field does not have.
  pub atomic_cswap-starts :
      (target compare_operand swap_operand : ℕ)
      → let msg : AtomicRequestMsg = record {
        compare_add = compare_operand;
        swap = swap_operand;
        index = target % 2 ^ 32;
        op = atomic_cmp_and_swp;
      } in
        (s' : Transport) × (w : MpiWorkRequest) × (atomic_cswap env peer target result_atomic
            compare_operand swap_operand wr s
          ≡ some (ok, s'))
        × (s'.wrs s.next_wr ≡ some w)
        × (s'.nnti_wrs wr ≡ some (atomic_user s.next_wr user))
        × (s'.posted
            ≡ irecv peer atomics_result_tag result_region (wr_slot s.next_wr atomics_recv_index)
              ∷ isend peer atomics_request_tag (request msg) (wr_slot s.next_wr atomics_send_index)
              ∷ s.posted)
        × (w.request_ptr ≡ own atomics_send_index)
        × ((i : ℕ) → w.active_requests i ≡ (i == atomics_send_index))
  unfolding atomic_cswap
  atomic_cswap-starts target compare_operand swap_operand =
      let w : MpiWorkRequest = atomic_request wr peer result_atomic in
      (
        _,
        started atomics_send_index atomics_recv_index w,
        start_atomic_lem _,
        update_self (update s.wrs s.next_wr (some w)) s.next_wr _,
        update_self s.nnti_wrs wr _,
        refl,
        refl,
        λ i. ground arith,
      )

module _ (env : Env) (p n : ℕ) (event : MpiStatus) (s : Transport) (w : MpiWorkRequest)
    (nw : WorkRequest) (a : Atomic) (at_p : s.wrs p ≡ some w) (of_user : w.nnti_wr ≡ some n)
    (at_n : s.nnti_wrs n ≡ some nw) (atomics : (nw.ops == bop_atomics) ≡ true)
    (at_result : get_elem? s.atomics w.atomics_result_index ≡ some a)
    (free : a.locked ≡ false) where
  -- What either event of an atomic operation leaves.
  abbrev pub after_atomic : Transport
  after_atomic = record s {
    wrs =
        update (update s.wrs p (some (record w { last_event = event }))) p
          (some (atomic_event w.op_state (record w { last_event = event })));
    nnti_wrs = update s.nnti_wrs n (some (record nw { result = ok }));
    atomics = set s.atomics w.atomics_result_index (record a { value = s.atomics_result_msg });
  }

  process_atomic_event : process_event env p event s ≡ some (ok, after_atomic)
  unfolding process_event process_wr process_atomic
  process_atomic_event =
      let w₁ : MpiWorkRequest = record w { last_event = event } in
      let s₁ : Transport = record s { wrs = update s.wrs p (some w₁) } in
      let s₂ : Transport = record s {
        wrs = update (update s.wrs p (some w₁)) p (some (atomic_event w.op_state w₁));
      } in
      >>=-eq_of_some (get_wr p) (λ w. process_wr env p event (record w { last_event = event })) s
        (get_wr_lem p s w at_p)
      ∙ ap (λ o. (nnti_wr_of o >>= process_either env p event w₁) s₁) of_user
      ∙ >>=-eq_of_some (nnti_wr_of (some n)) (process_either env p event w₁) s₁ (
          >>=-eq_of_some (get_nnti_wr n) (λ x. pure (some (n, x))) s₁
            (get_nnti_wr_lem n s₁ nw at_n))
      ∙ ap
          (λ (t : Bool).
            (if t
                then process_atomic p n nw w₁
                else get_backing w.reg_buf >>= process_data env p event w₁)
              s₁)
          atomics
      ∙ >>=-eq_of_some (get_atomic w.atomics_result_index)
          (λ a. read (λ s. s.atomics_result_msg) >>= λ r.
            put_atomic w.atomics_result_index (record a { value = r })
            >> (put_nnti_wr n (record nw { result = ok }) >> pure ok))
          s₂ (get_atomic_lem w.atomics_result_index a s₂ at_result free)

-- The first event of an atomic operation moves its work request on, and keeps the rest of it.
first_event :
    (event : MpiStatus) (w : MpiWorkRequest)
    → w.op_state ≡ buffer_init
    → let w₁ : MpiWorkRequest = atomic_event w.op_state (record w { last_event = event }) in
      (w₁.nnti_wr ≡ w.nnti_wr)
      × (w₁.atomics_result_index ≡ w.atomics_result_index)
      × (w₁.op_state ≡ send_complete)
      × (w₁.last_op ≡ w.last_op)
first_event event w e = ground arith

second_event :
    (event : MpiStatus) (w : MpiWorkRequest)
    → w.op_state ≡ send_complete
    → w.last_op ≡ fetch_add
    → is_wr_complete (atomic_event w.op_state (record w { last_event = event })) ≡ true
second_event event w e f = ground arith

not_complete :
    (w : MpiWorkRequest)
    → w.op_state ≡ send_complete
    → w.last_op ≡ fetch_add
    → is_wr_complete w ≡ false
not_complete w e f = ground arith

module _ (env : Env) (p n : ℕ) (e₁ e₂ : MpiStatus) (s : Transport) (w : MpiWorkRequest)
    (nw : WorkRequest) (a : Atomic) (v : ℕ) (at_p : s.wrs p ≡ some w) (of_user : w.nnti_wr ≡ some n)
    (at_n : s.nnti_wrs n ≡ some nw) (atomics : (nw.ops == bop_atomics) ≡ true)
    (at_result : get_elem? s.atomics w.atomics_result_index ≡ some a) (free : a.locked ≡ false)
    (first : w.op_state ≡ buffer_init) (fop : w.last_op ≡ fetch_add) where
  -- The two events of an atomic operation, its send and its receive, in this order, the answer `v`
  -- arriving between them. After the second the operation is complete and the result variable holds
  -- the answer. After the first it is not complete, and the result variable has already been
  -- overwritten, by what the shared message held before the answer came.
  pub atomic_events :
      (s₁ s₂ : Transport) × (w₁ w₂ : MpiWorkRequest) × (process_event env p e₁ s ≡ some (ok, s₁))
      × (s₁.wrs p ≡ some w₁)
      × (is_wr_complete w₁ ≡ false)
      × (get_elem? s₁.atomics w.atomics_result_index
          ≡ some (record a { value = s.atomics_result_msg }))
      × (process_event env p e₂ (record s₁ { atomics_result_msg = v }) ≡ some (ok, s₂))
      × (s₂.wrs p ≡ some w₂)
      × (is_wr_complete w₂ ≡ true)
      × (get_elem? s₂.atomics w.atomics_result_index ≡ some (record a { value = v }))
  atomic_events =
      let i : ℕ = w.atomics_result_index in
      let w₁ : MpiWorkRequest = atomic_event w.op_state (record w { last_event = e₁ }) in
      let w₂ : MpiWorkRequest = atomic_event w₁.op_state (record w₁ { last_event = e₂ }) in
      let nw₁ : WorkRequest = record nw { result = ok } in
      let a₁ : Atomic = record a { value = s.atomics_result_msg } in
      let s₁ : Transport =
        after_atomic env p n e₁ s w nw a at_p of_user at_n atomics at_result free in
      let t : Transport = record s₁ { atomics_result_msg = v } in
      let kept : (w₁.nnti_wr ≡ w.nnti_wr)
          × (w₁.atomics_result_index ≡ i)
          × (w₁.op_state ≡ send_complete)
          × (w₁.last_op ≡ w.last_op) =
        first_event e₁ w first in
      let at₁ : s₁.wrs p ≡ some w₁ =
        update_self (update s.wrs p (some (record w { last_event = e₁ }))) p (some w₁) in
      let here : get_elem? s₁.atomics i ≡ some a₁ =
        get_elem?-set_self s.atomics i a₁ (lt_of_get_elem? s.atomics i a at_result) in
      let there : get_elem? t.atomics w₁.atomics_result_index ≡ some a₁ =
        ap (get_elem? s₁.atomics) kept.1 ∙ here in
      let run₂ : process_event env p e₂ t
          ≡ some (
            ok,
            after_atomic env p n e₂ t w₁ nw₁ a₁ at₁ (kept.0 ∙ of_user)
                (update_self s.nnti_wrs n (some nw₁)) atomics there free,
          ) =
        process_atomic_event env p n e₂ t w₁ nw₁ a₁ at₁ (kept.0 ∙ of_user)
          (update_self s.nnti_wrs n (some nw₁)) atomics there free in
      (
        s₁,
        after_atomic env p n e₂ t w₁ nw₁ a₁ at₁ (kept.0 ∙ of_user)
            (update_self s.nnti_wrs n (some nw₁)) atomics there free,
        w₁,
        w₂,
        process_atomic_event env p n e₁ s w nw a at_p of_user at_n atomics at_result free,
        at₁,
        not_complete w₁ kept.2 (kept.3 ∙ fop),
        here,
        run₂,
        update_self (update t.wrs p (some (record w₁ { last_event = e₂ }))) p (some w₂),
        second_event e₂ w₁ kept.2 (kept.3 ∙ fop),
        ap (λ j. get_elem? (set t.atomics j (record a { value = v })) i) kept.1
            ∙ get_elem?-set_self t.atomics i (record a { value = v })
                (lt_of_get_elem? t.atomics i a₁ here),
      )
