-- ===== src/Mpi/Event/Course.antt =====
-- A work request runs its course: each event that MPI reports completes one leg, and it is complete
-- when none is left.
use nnti.Base.{
  ℕ, ◌≡◌, ◌≢◌, ◌↔◌, ◌∙◌, refl, sym, ap, true, Option, none, some, List, [], ◌∷◌, ◌++◌, length,
  arith, update, update_self,
}
use mathlib.Core.Path.{subst, subst₂}
use nnti.Types.{NntiResult, ok}
use nnti.Mpi.State.{buffer_init, MpiStatus, MpiWorkRequest, MemoryHandle, Buffer}
use nnti.Mpi.Machine.{>>=-eq_of_some, MpiCall, Env, Transport, M, pure, ◌>>=◌}
use nnti.Mpi.Event.{data_event, follow_up, process_event, is_wr_complete}
use nnti.Mpi.Event.Phases.{
  IsReady, data_event-IsReady, is_complete-legs, data_event-keeps, data_event-ne_init,
}
use nnti.Mpi.Event.Memory.{IsPlain, Backed, seen, after_post, after_event, process_event_lem}

pub after_post-keeps :
    (env : Env) (c : Option MpiCall) (s : Transport)
    → ((after_post env c s).wrs ≡ s.wrs)
      × ((after_post env c s).buffers ≡ s.buffers)
      × ((after_post env c s).nnti_wrs ≡ s.nnti_wrs)
after_post-keeps env none s = (refl, refl, refl)
after_post-keeps env (some c) s = (refl, refl, refl)

-- The work request that `process_event` leaves at `p`.
abbrev pub moved : MpiStatus → MemoryHandle → MpiWorkRequest → MpiWorkRequest
moved event h w = data_event (seen event h w).last_op (seen event h w)

-- What `process_event` learns from a command changes nothing but the operation.
seen-keeps :
    (event : MpiStatus) (h : MemoryHandle) (w : MpiWorkRequest)
    → ((seen event h w).nnti_wr ≡ w.nnti_wr)
      × ((seen event h w).reg_buf ≡ w.reg_buf)
      × ((seen event h w).op_state ≡ w.op_state)
seen-keeps event h w = ground arith

-- After the first state, nothing is learned.
seen_later :
    (event : MpiStatus) (h : MemoryHandle) (w : MpiWorkRequest)
    → w.op_state ≢ buffer_init
    → seen event h w ≡ record w { last_event = event }
seen_later event h w ne = ground arith

moved-keeps :
    (event : MpiStatus) (h : MemoryHandle) (w : MpiWorkRequest)
    → ((moved event h w).nnti_wr ≡ w.nnti_wr) × ((moved event h w).reg_buf ≡ w.reg_buf)
moved-keeps event h w =
    let w' : MpiWorkRequest = seen event h w in
    let kept : ((data_event w'.last_op w').nnti_wr ≡ w'.nnti_wr)
        × ((data_event w'.last_op w').reg_buf ≡ w'.reg_buf)
        × ((data_event w'.last_op w').last_op ≡ w'.last_op) =
      data_event-keeps w'.last_op w'.op_state w' refl in
    (kept.0 ∙ (seen-keeps event h w).0, kept.1 ∙ (seen-keeps event h w).1)

module _ (env : Env) (p : ℕ) (event : MpiStatus) (s : Transport) (w : MpiWorkRequest) (r : ℕ)
    (b : Buffer) (h : MemoryHandle) (backed : Backed s p w r b h) where
  pub after_event-Backed : Backed (after_event env p event w b h s) p (moved event h w) r b h
  after_event-Backed =
      let w' : MpiWorkRequest = seen event h w in
      let c : Option MpiCall = follow_up w'.last_op w'.op_state p w' b h event in
      let s₁ : Transport = record s {
        wrs =
            update (update s.wrs p (some (record w { last_event = event }))) p
              (some (data_event w'.last_op w'));
      } in
      let kept : ((after_post env c s₁).wrs ≡ s₁.wrs)
          × ((after_post env c s₁).buffers ≡ s₁.buffers)
          × ((after_post env c s₁).nnti_wrs ≡ s₁.nnti_wrs) =
        after_post-keeps env c s₁ in
      record {
        at_p =
            ap (λ f. f p) (kept.0)
            ∙ update_self (update s.wrs p (some (record w { last_event = event }))) p _;
        plain = subst₂ IsPlain (sym kept.2) (sym (moved-keeps event h w).0) backed.plain;
        of_buffer = (moved-keeps event h w).1 ∙ backed.of_buffer;
        at_r = ap (λ f. f r) kept.1 ∙ backed.at_r;
        handle = backed.handle;
      }

-- One event completes the first leg of a request that is on its course.
moved-IsReady :
    (event : MpiStatus) (h : MemoryHandle) (w : MpiWorkRequest) (i : ℕ) (l : List ℕ)
    → IsReady (i ∷ l) (seen event h w)
    → IsReady l (moved event h w) × ((moved event h w).op_state ≢ buffer_init)
moved-IsReady event h w i l ready =
    let w' : MpiWorkRequest = seen event h w in
    (
      data_event-IsReady w'.last_op w'.op_state i l w' refl refl ready,
      data_event-ne_init w'.last_op w'.op_state i l w' refl refl ready.on_course,
    )

seen-IsReady :
    (event : MpiStatus) (h : MemoryHandle) (w : MpiWorkRequest) (l : List ℕ)
    → w.op_state ≢ buffer_init
    → IsReady l w
    → IsReady l (seen event h w)
seen-IsReady event h w l ne ready =
    subst (IsReady l) (sym (seen_later event h w ne))
      (record { on_course = ready.on_course; waits = ready.waits; flags = ready.flags })

-- The events of a work request, in the order in which MPI reports them.
unfoldable pub process_events : Env → ℕ → List MpiStatus → M NntiResult
process_events env p [] = pure ok
process_events env p (e ∷ es) = process_event env p e >>= λ _. process_events env p es

-- What the events that complete the legs `done` leave at `p`: a request with `left` to go.
pub record Progress (s' : Transport) (p : ℕ) (left : List ℕ) (r : ℕ) (b : Buffer) (h : MemoryHandle)
    (v : MpiWorkRequest) : Type 0 where
  pub backed : Backed s' p v r b h
  pub ready : IsReady left v
  pub complete : (is_wr_complete v ≡ true) ↔ (left ≡ [])

module _ (env : Env) (p : ℕ) (r : ℕ) (b : Buffer) (h : MemoryHandle) (left : List ℕ) where
  later_events :
      (done : List ℕ) (es : List MpiStatus) (s : Transport) (w : MpiWorkRequest)
      → length es ≡ length done
      → Backed s p w r b h
      → w.op_state ≢ buffer_init
      → IsReady (done ++ left) w
      → (s' : Transport) × (v : MpiWorkRequest) × (process_events env p es s ≡ some (ok, s'))
        × Progress s' p left r b h v
  unfolding process_events
  later_events [] [] s w e backed ne ready = (
    s,
    w,
    refl,
    record {
      backed = backed;
      ready = ready;
      complete = is_complete-legs w.last_op w.op_state left ready.on_course;
    },
  )
  later_events [] (x ∷ es) s w e backed ne ready = absurd (omega arith)
  later_events (i ∷ done) [] s w e backed ne ready = absurd (omega arith)
  later_events (i ∷ done) (x ∷ es) s w e backed ne ready =
      let step : IsReady (done ++ left) (moved x h w) × ((moved x h w).op_state ≢ buffer_init) =
        moved-IsReady x h w i (done ++ left) (seen-IsReady x h w _ ne ready) in
      let (s', v, run, progress) =
        later_events done es (after_event env p x w b h s) (moved x h w) (omega arith)
          (after_event-Backed env p x s w r b h backed) step.1 step.0 in
      (
        s',
        v,
        >>=-eq_of_some (process_event env p x) (λ _. process_events env p es) s
              (process_event_lem env p x s w r b h backed)
            ∙ run,
        progress,
      )

  -- From a work request whose legs are `i ∷ done ++ left` (read after the command, if the first
  -- event brings one), the events that MPI reports for `i ∷ done` are processed without a fault,
  -- and leave a request with the legs `left`, which waits for the first of them, has exactly their
  -- flags, and counts as complete exactly if there are none.
  pub process_events-Progress :
      (i : ℕ) (done : List ℕ) (e : MpiStatus) (es : List MpiStatus) (s : Transport)
      (w : MpiWorkRequest)
      → length es ≡ length done
      → Backed s p w r b h
      → IsReady (i ∷ done ++ left) (seen e h w)
      → (s' : Transport) × (v : MpiWorkRequest) × (process_events env p (e ∷ es) s ≡ some (ok, s'))
        × Progress s' p left r b h v
  unfolding process_events
  process_events-Progress i done e es s w len backed ready =
      let step : IsReady (done ++ left) (moved e h w) × ((moved e h w).op_state ≢ buffer_init) =
        moved-IsReady e h w i (done ++ left) ready in
      let (s', v, run, progress) =
        later_events done es (after_event env p e w b h s) (moved e h w) len
          (after_event-Backed env p e s w r b h backed) step.1 step.0 in
      (
        s',
        v,
        >>=-eq_of_some (process_event env p e) (λ _. process_events env p es) s
              (process_event_lem env p e s w r b h backed)
            ∙ run,
        progress,
      )
