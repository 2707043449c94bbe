-- ===== src/Mpi/Event/Memory.antt =====
-- `process_event` on a work request in memory: each event completes one leg, and a command that
-- arrives starts the transfer.
use nnti.Base.{
  ℕ, suc, ◌≡◌, ◌∙◌, refl, ap, Bool, false, Option, none, some, ◌∷◌, ◌==◌, if◌then◌else◌, arith,
  update,
}
use nnti.Types.{ok}
use nnti.Mpi.State.{MpiStatus, MpiWorkRequest, MemoryHandle, bop_atomics, Buffer, WorkRequest}
use nnti.Mpi.Machine.{
  >>=-eq_of_some, get_wr_lem, get_nnti_wr_lem, MpiCall, Env, Transport, pure, ◌>>=◌, get_wr,
  get_nnti_wr,
}
use nnti.Mpi.Event.{
  data_event, follow_up, post_any, learn_op, process_atomic, process_data, process_event,
  nnti_wr_of, get_backing, process_wr, process_either,
}

-- The work request belongs to no atomic operation of its user.
abbrev pub IsPlain : (ℕ → Option WorkRequest) → Option ℕ → Type 0
IsPlain nnti_wrs none = Unit {0}
IsPlain nnti_wrs (some n) =
    (nw : WorkRequest) × (nnti_wrs n ≡ some nw) × ((nw.ops == bop_atomics) ≡ false)

-- The work request at `p`, its buffer and the buffer's handle are in memory.
pub record Backed (s : Transport) (p : ℕ) (w : MpiWorkRequest) (r : ℕ) (b : Buffer)
    (h : MemoryHandle) : Type 0 where
  pub at_p : s.wrs p ≡ some w
  pub plain : IsPlain s.nnti_wrs w.nnti_wr
  pub of_buffer : w.reg_buf ≡ some r
  pub at_r : s.buffers r ≡ some b
  pub handle : b.transport_private ≡ some h

abbrev pub after_post : Env → Option MpiCall → Transport → Transport
after_post env none s = s
after_post env (some c) s = record s {
  posted = (if env.accepts s.asked then c ∷ s.posted else s.posted);
  asked = suc s.asked;
}

-- The work request as `process_event` finds it, once it has read the event and the command.
abbrev pub seen : MpiStatus → MemoryHandle → MpiWorkRequest → MpiWorkRequest
seen event h w = learn_op w.op_state (event.tag == h.cmd_tag) (record w { last_event = event })

-- The state that `process_event` leaves.
abbrev pub after_event :
    Env → ℕ → MpiStatus → MpiWorkRequest → Buffer → MemoryHandle → Transport → Transport
after_event env p event w b h s =
    let w' : MpiWorkRequest = seen event h w in
    after_post env (follow_up w'.last_op w'.op_state p w' b h event) (record s {
      wrs =
          update (update s.wrs p (some (record w { last_event = event }))) p
            (some (data_event w'.last_op w'));
    })

post_any_lem :
    (env : Env) (c : Option MpiCall) (s : Transport)
    → post_any env c s ≡ some (tt, after_post env c s)
post_any_lem env none s = refl
post_any_lem env (some c) s = refl

pub get_backing_lem :
    (o : Option ℕ) (r : ℕ) (b : Buffer) (h : MemoryHandle) (s : Transport)
    → o ≡ some r
    → s.buffers r ≡ some b
    → b.transport_private ≡ some h
    → get_backing o s ≡ some ((b, h), s)
get_backing_lem o r b h s eo er eh = ground arith

process_data_lem :
    (env : Env) (p : ℕ) (event : MpiStatus) (w : MpiWorkRequest) (b : Buffer) (h : MemoryHandle)
    (s : Transport)
    → let w' : MpiWorkRequest = seen event h w in
      process_data env p event (record w { last_event = event }) (b, h) s
      ≡ some (
        ok,
        after_post env
            (follow_up w'.last_op w'.op_state p w' b h event)
            (record s { wrs = update s.wrs p (some (data_event w'.last_op w')) }),
      )
unfolding process_data
process_data_lem env p event w b h s =
    >>=-eq_of_some
      (post_any env
        (follow_up (seen event h w).last_op (seen event h w).op_state p (seen event h w) b h event))
      (λ _. pure ok) _ (post_any_lem env _ _)

process_user :
    (env : Env) (p : ℕ) (event : MpiStatus) (w : MpiWorkRequest) (o : Option ℕ) (s : Transport)
    → IsPlain s.nnti_wrs o
    → (nnti_wr_of o >>= process_either env p event w) s
      ≡ (get_backing w.reg_buf >>= process_data env p event w) s
process_user env p event w none s i = refl
process_user env p event w (some n) s (nw, e, ne) =
    >>=-eq_of_some (nnti_wr_of (some n)) (process_either env p event w) s
      (>>=-eq_of_some (get_nnti_wr n) (λ x. pure (some (n, x))) s (get_nnti_wr_lem n s nw e))
    ∙ ap
        (λ (t : Bool).
          (if t
              then process_atomic p n nw w
              else get_backing w.reg_buf >>= process_data env p event w)
            s)
        ne

module _ (env : Env) (p : ℕ) (event : MpiStatus) (s : Transport) (w : MpiWorkRequest) (r : ℕ)
    (b : Buffer) (h : MemoryHandle) (backed : Backed s p w r b h) where
  pub process_event_lem : process_event env p event s ≡ some (ok, after_event env p event w b h s)
  unfolding process_event process_wr
  process_event_lem =
      let w₁ : MpiWorkRequest = record w { last_event = event } in
      let s₁ : Transport = record s { wrs = update s.wrs p (some w₁) } in
      >>=-eq_of_some (get_wr p) (λ w. process_wr env p event (record w { last_event = event })) s
        (get_wr_lem p s w backed.at_p)
      ∙ process_user env p event w₁ w.nnti_wr s₁ backed.plain
      ∙ >>=-eq_of_some (get_backing w.reg_buf) (process_data env p event w₁) s₁
          (get_backing_lem w.reg_buf r b h s₁ backed.of_buffer backed.at_r backed.handle)
      ∙ process_data_lem env p event w b h s₁
