-- ===== src/Mpi/Atomics/Serve.antt =====
-- Serving the atomic requests of peers, against a memory of integers that executes them one by one.
use nnti.Base.{
  ℕ, suc, ◌≡◌, ◌∙◌, refl, ap, Bool, true, false, none, some, List, ◌∷◌, if◌then◌else◌, get_elem?,
  set, lt_of_get_elem?, set-set, get_elem?-set_self,
}
use nnti.Mpi.Event.{get_atomic, put_atomic}
use nnti.Mpi.Initiate.{atomics_request_tag, atomics_result_tag}
use nnti.Mpi.Atomics.{apply, answer, serve, post_atomics_recv_request, set_result_msg}
use nnti.Mpi.State.{rank, any_source}
use nnti.Mpi.Machine.{
  >>=-eq_of_some, atomics_slot, blocking, result, request_region, MpiCall, irecv, Env, Atomic,
  Transport, pure, fault, ◌>>=◌, ◌>>◌, assert_some, read,
}

pub get_atomic_lem :
    (i : ℕ) (a : Atomic) (s : Transport)
    → get_elem? s.atomics i ≡ some a
    → a.locked ≡ false
    → get_atomic i s ≡ some (a, s)
get_atomic_lem i a s e free =
    ap (λ o. (assert_some o >>= λ a. if a.locked then fault else pure a) s) e
    ∙ ap (λ (t : Bool). (if t then fault else pure a) s) free

-- A variable whose lock is taken: the thread never comes back.
pub get_atomic_locked :
    (i : ℕ) (a : Atomic) (s : Transport)
    → get_elem? s.atomics i ≡ some a
    → a.locked ≡ true
    → get_atomic i s ≡ none
get_atomic_locked i a s e held =
    ap (λ o. (assert_some o >>= λ a. if a.locked then fault else pure a) s) e
    ∙ ap (λ (t : Bool). (if t then fault else pure a) s) held

abbrev pub reply_call : ℕ → ℕ → MpiCall
reply_call source v = MpiCall.send (rank source) atomics_result_tag (result v) blocking

abbrev pub next_receive : MpiCall
next_receive = irecv any_source atomics_request_tag request_region atomics_slot

-- The outcome of the switch for the request that is in the message, at the value `v`.
abbrev pub outcome : Transport → ℕ → ℕ × ℕ
outcome s v = apply s.atomics_request_msg.op s.atomics_request_msg s.atomics_result_msg v

-- A request that was answered: the variable has its new value and is free, the answer is sent, and
-- a receive for the next request is posted, if MPI accepts it.
abbrev pub served : Env → ℕ → ℕ → Transport → Transport
served env source v s =
    let i : ℕ = s.atomics_request_msg.index in
    let sent : List MpiCall = reply_call source (outcome s v).0 ∷ s.posted in
    record s {
      atomics = set s.atomics i (record { locked = false; value = (outcome s v).1 });
      atomics_result_msg = (outcome s v).0;
      posted = (if env.accepts (suc s.asked) then next_receive ∷ sent else sent);
      asked = suc (suc s.asked);
    }

-- The end of the handler, by whether MPI accepts the answer.
answer_lem :
    (env : Env) (source i v r : ℕ) (s : Transport) (t : Bool)
    → env.accepts s.asked ≡ t
    → answer env source i v r s
      ≡ (if t
            then put_atomic i (record { locked = false; value = v })
              >> (post_atomics_recv_request env >> pure 1)
            else pure 0)
          (record s {
            posted = (if t then reply_call source r ∷ s.posted else s.posted);
            asked = suc s.asked;
          })
unfolding answer
answer_lem env source i v r s t e =
    ap
      (λ (t : Bool).
        (if t
            then put_atomic i (record { locked = false; value = v })
              >> (post_atomics_recv_request env >> pure 1)
            else pure 0)
          (record s {
            posted = (if t then reply_call source r ∷ s.posted else s.posted);
            asked = suc s.asked;
          }))
      e

module _ (env : Env) (source : ℕ) (a : Atomic) (s : Transport)
    (at : get_elem? s.atomics s.atomics_request_msg.index ≡ some a) (free : a.locked ≡ false) where
  abbrev locking : Transport
  locking = record s {
    atomics =
        set s.atomics s.atomics_request_msg.index
          (record { locked = true; value = (outcome s a.value).1 });
    atomics_result_msg = (outcome s a.value).0;
  }

  serve_to_answer :
      serve env source s
      ≡ answer env source s.atomics_request_msg.index
          (outcome s a.value).1
          (outcome s a.value).0
          locking
  unfolding serve
  serve_to_answer =
      >>=-eq_of_some (get_atomic s.atomics_request_msg.index)
        (λ a. read (λ s. s.atomics_result_msg) >>= λ old.
          let r : ℕ × ℕ = apply s.atomics_request_msg.op s.atomics_request_msg old a.value in
          set_result_msg r.0
          >> (put_atomic s.atomics_request_msg.index (record { locked = true; value = r.1 })
              >> answer env source s.atomics_request_msg.index r.1 r.0))
        s (get_atomic_lem s.atomics_request_msg.index a s at free)

  pub serve_lem :
      env.accepts s.asked ≡ true → serve env source s ≡ some (1, served env source a.value s)
  serve_lem e =
      let i : ℕ = s.atomics_request_msg.index in
      let v : ℕ = (outcome s a.value).1 in
      let r : ℕ = (outcome s a.value).0 in
      serve_to_answer
      ∙ answer_lem env source i v r locking true e
      ∙ ap (λ l. some (1, record (served env source a.value s) { atomics = l }))
          (set-set s.atomics i (record { locked = true; value = v })
            (record { locked = false; value = v }))

  -- Where MPI refuses the answer, the operation is done but counts for nothing: no answer is sent,
  -- no receive is posted for the next request, and the variable's lock stays taken, so that whoever
  -- next touches the variable never comes back.
  pub serve-refused :
      env.accepts s.asked ≡ false
      → (s' : Transport) × (serve env source s ≡ some (0, s'))
        × (s'.posted ≡ s.posted)
        × (get_atomic s.atomics_request_msg.index s' ≡ none)
  serve-refused e =
      let i : ℕ = s.atomics_request_msg.index in
      let held : Atomic = record { locked = true; value = (outcome s a.value).1 } in
      let s' : Transport = record locking { asked = suc s.asked } in
      (
        s',
        serve_to_answer
            ∙ answer_lem env source i (outcome s a.value).1 (outcome s a.value).0 locking false e,
        refl,
        get_atomic_locked i held s'
            (get_elem?-set_self s.atomics i held (lt_of_get_elem? s.atomics i a at)) refl,
      )
