-- ===== src/Front/Desk/Requests.antt =====
-- The requests of the front end, where its table shows what is open.
use nnti.Base.{
  ℕ, ◌≡◌, ◌∙◌, refl, ap, Bool, true, false, Option, none, some, leb, ◌==◌, if◌then◌else◌,
  Bool-cases, inl, inr,
}
use nnti.Types.{NntiResult, einval}
use nnti.Front.{
  World, Effect, Ops, Entry, Front, Build, transport_count, compiled, returned, call, dispatch,
  zeroed, then_mark, dispatch_list,
}
use nnti.Front.TransportId
use nnti.Front.Request.{
  Request, target, work, marks, serve_request, get_url, connect, disconnect, alloc, free,
  register_memory, register_segments, unregister_memory, send, put, get, scatter, gather,
  atomic_set_callback, atomic_read, atomic_fop, atomic_cswap, create_work_request,
  clear_work_request, destroy_work_request, cancel, cancelall, interrupt, wait, waitany, waitall,
}
use nnti.Front.Desk.{marked, use_ops, reach, answer}
use nnti.Front.Calls.{
  nnti_get_url, nnti_connect, nnti_disconnect, nnti_alloc, nnti_free, nnti_register_memory,
  nnti_register_segments, nnti_unregister_memory, nnti_send, nnti_put, nnti_get, nnti_scatter,
  nnti_gather, nnti_atomic_set_callback, nnti_atomic_read, nnti_atomic_fop, nnti_atomic_cswap,
  nnti_create_work_request, nnti_clear_work_request, nnti_destroy_work_request, nnti_cancel,
  nnti_cancelall, nnti_interrupt, nnti_wait, nnti_waitany, nnti_waitall,
}

module _ {W : Type 0} (build : Build W) where
  -- The entry of a transport that is open, and of one that is not.
  abbrev pub entry_of : (ℕ → Bool) → ℕ → Entry W
  entry_of opened id =
      if opened id then record { initialized = true; ops = compiled build id } else zeroed

  pub record Shows (fresh : Bool) (entries : ℕ → Entry W) (opened : ℕ → Bool) : Type 0 where
    pub shown : (id : ℕ) → entries id ≡ entry_of opened id
    pub unused : fresh ≡ true → (id : ℕ) → opened id ≡ false

  call-use_ops :
      (o : Option (Ops W)) (f : Ops W → Effect W) (s : Front W)
      → call o f s ≡ returned s (use_ops o f s.world)
  call-use_ops none f s = refl
  call-use_ops (some ops) f s = refl

  dispatch-reach :
      (s : Front W) (opened : ℕ → Bool)
      → Shows s.first_init s.entries opened
      → (id : ℕ) (f : Ops W → Effect W)
      → dispatch id f s ≡ returned s (reach build opened id f s.world)
  unfolding dispatch
  dispatch-reach s opened h id f = elim (Bool-cases (leb transport_count id)) [
    | inl e ↦ rw e refl
    | inr e ↦ elim (Bool-cases (opened id)) [
      | inl e' ↦ rw e (rw (h.shown id) (rw e' (call-use_ops (compiled build id) f s)))
      | inr e' ↦ rw e (rw (h.shown id) (rw e' refl))
    ]
  ]

  dispatch_list-reach :
      (s : Front W) (opened : ℕ → Bool)
      → Shows s.first_init s.entries opened
      → (id : ℕ) (f : Ops W → Effect W)
      → dispatch_list id f s
        ≡ returned s (
            if id == TransportId.null
            then some (einval, s.world)
            else reach build opened id f s.world)
  unfolding dispatch_list
  dispatch_list-reach s opened h id f = elim (Bool-cases (id == TransportId.null)) [
    | inl e ↦ rw e refl
    | inr e ↦ rw e (dispatch-reach s opened h id f)
  ]

  then_mark-returned :
      (mark : World W → World W) (s : Front W) (a : Option (NntiResult × World W))
      → then_mark mark (returned s a) ≡ returned s (marked mark a)
  then_mark-returned mark s none = refl
  then_mark-returned mark s (some (rc, w)) = refl

  returned-unmarked :
      (s : Front W) (a : Option (NntiResult × World W))
      → returned s a ≡ returned s (marked (λ w. w) a)
  returned-unmarked s none = refl
  returned-unmarked s (some (rc, w)) = refl

  module _ (s : Front W) (opened : ℕ → Bool) (h : Shows s.first_init s.entries opened) where
    plain :
        (id : ℕ) (f : Ops W → Effect W)
        → dispatch id f s ≡ returned s (marked (λ w. w) (reach build opened id f s.world))
    plain id f =
        dispatch-reach s opened h id f ∙ returned-unmarked s (reach build opened id f s.world)

    marking :
        (mark : World W → World W) (id : ℕ) (f : Ops W → Effect W)
        → then_mark mark (dispatch id f s)
          ≡ returned s (marked mark (reach build opened id f s.world))
    marking mark id f =
        ap (then_mark mark) (dispatch-reach s opened h id f)
        ∙ then_mark-returned mark s (reach build opened id f s.world)

    marking_list :
        (mark : World W → World W) (id : ℕ) (f : Ops W → Effect W)
        → then_mark mark (dispatch_list id f s)
          ≡ returned s (
              marked mark (
                if id == TransportId.null
                then some (einval, s.world)
                else reach build opened id f s.world))
    marking_list mark id f =
        ap (then_mark mark) (dispatch_list-reach s opened h id f)
        ∙ then_mark-returned mark s (
            if id == TransportId.null
            then some (einval, s.world)
            else reach build opened id f s.world)

    pub serve_request-answer :
        (r : Request) → serve_request r s ≡ returned s (answer build opened r s.world)
    unfolding nnti_get_url nnti_connect nnti_disconnect nnti_alloc nnti_free nnti_register_memory
        nnti_register_segments nnti_unregister_memory nnti_send nnti_put nnti_get nnti_scatter
        nnti_gather nnti_atomic_set_callback nnti_atomic_read nnti_atomic_fop nnti_atomic_cswap
        nnti_create_work_request nnti_clear_work_request nnti_destroy_work_request nnti_cancel
        nnti_cancelall nnti_interrupt nnti_wait nnti_waitany nnti_waitall
    serve_request-answer (get_url trans_hdl url maxlen) =
        plain (target (get_url trans_hdl url maxlen) s.world) (work (get_url trans_hdl url maxlen))
    serve_request-answer (connect trans_hdl url timeout peer_hdl) =
        marking (marks (connect trans_hdl url timeout peer_hdl))
          (target (connect trans_hdl url timeout peer_hdl) s.world)
          (work (connect trans_hdl url timeout peer_hdl))
    serve_request-answer (disconnect trans_hdl peer_hdl) =
        plain (target (disconnect trans_hdl peer_hdl) s.world)
          (work (disconnect trans_hdl peer_hdl))
    serve_request-answer (alloc trans_hdl element_size num_elements buf_ops reg_buf) =
        marking (marks (alloc trans_hdl element_size num_elements buf_ops reg_buf))
          (target (alloc trans_hdl element_size num_elements buf_ops reg_buf) s.world)
          (work (alloc trans_hdl element_size num_elements buf_ops reg_buf))
    serve_request-answer (free reg_buf) =
        plain (target (free reg_buf) s.world) (work (free reg_buf))
    serve_request-answer
          (register_memory trans_hdl buffer element_size num_elements buf_ops reg_buf) =
        marking (marks (register_memory trans_hdl buffer element_size num_elements buf_ops reg_buf))
          (target (register_memory trans_hdl buffer element_size num_elements buf_ops reg_buf)
            s.world)
          (work (register_memory trans_hdl buffer element_size num_elements buf_ops reg_buf))
    serve_request-answer
          (register_segments trans_hdl segments segment_lengths num_segments buf_ops reg_buf) =
        marking
          (marks
            (register_segments trans_hdl segments segment_lengths num_segments buf_ops reg_buf))
          (target
            (register_segments trans_hdl segments segment_lengths num_segments buf_ops reg_buf)
            s.world)
          (work (register_segments trans_hdl segments segment_lengths num_segments buf_ops reg_buf))
    serve_request-answer (unregister_memory reg_buf) =
        plain (target (unregister_memory reg_buf) s.world) (work (unregister_memory reg_buf))
    serve_request-answer (send peer_hdl msg_hdl dest_hdl wr) =
        marking (marks (send peer_hdl msg_hdl dest_hdl wr))
          (target (send peer_hdl msg_hdl dest_hdl wr) s.world)
          (work (send peer_hdl msg_hdl dest_hdl wr))
    serve_request-answer (put src_buffer_hdl src_offset src_length dest_buffer_hdl dest_offset wr) =
        marking (marks (put src_buffer_hdl src_offset src_length dest_buffer_hdl dest_offset wr))
          (target (put src_buffer_hdl src_offset src_length dest_buffer_hdl dest_offset wr) s.world)
          (work (put src_buffer_hdl src_offset src_length dest_buffer_hdl dest_offset wr))
    serve_request-answer (get src_buffer_hdl src_offset src_length dest_buffer_hdl dest_offset wr) =
        marking (marks (get src_buffer_hdl src_offset src_length dest_buffer_hdl dest_offset wr))
          (target (get src_buffer_hdl src_offset src_length dest_buffer_hdl dest_offset wr) s.world)
          (work (get src_buffer_hdl src_offset src_length dest_buffer_hdl dest_offset wr))
    serve_request-answer (scatter src_buffer_hdl src_length dest_buffer_list dest_count wr) =
        marking (marks (scatter src_buffer_hdl src_length dest_buffer_list dest_count wr))
          (target (scatter src_buffer_hdl src_length dest_buffer_list dest_count wr) s.world)
          (work (scatter src_buffer_hdl src_length dest_buffer_list dest_count wr))
    serve_request-answer (gather src_buffer_list src_length src_count dest_buffer_hdl wr) =
        marking (marks (gather src_buffer_list src_length src_count dest_buffer_hdl wr))
          (target (gather src_buffer_list src_length src_count dest_buffer_hdl wr) s.world)
          (work (gather src_buffer_list src_length src_count dest_buffer_hdl wr))
    serve_request-answer (atomic_set_callback trans_hdl local_atomic cbfunc context) =
        plain (target (atomic_set_callback trans_hdl local_atomic cbfunc context) s.world)
          (work (atomic_set_callback trans_hdl local_atomic cbfunc context))
    serve_request-answer (atomic_read trans_hdl local_atomic value) =
        plain (target (atomic_read trans_hdl local_atomic value) s.world)
          (work (atomic_read trans_hdl local_atomic value))
    serve_request-answer (atomic_fop trans_hdl peer_hdl target_atomic result_atomic operand op wr) =
        marking (marks (atomic_fop trans_hdl peer_hdl target_atomic result_atomic operand op wr))
          (target (atomic_fop trans_hdl peer_hdl target_atomic result_atomic operand op wr) s.world)
          (work (atomic_fop trans_hdl peer_hdl target_atomic result_atomic operand op wr))
    serve_request-answer
          (atomic_cswap trans_hdl peer_hdl target_atomic result_atomic compare_operand swap_operand
            wr) =
        marking
          (marks (
            atomic_cswap trans_hdl peer_hdl target_atomic result_atomic compare_operand swap_operand
              wr))
          (target
            (atomic_cswap trans_hdl peer_hdl target_atomic result_atomic compare_operand
              swap_operand wr)
            s.world)
          (work (
            atomic_cswap trans_hdl peer_hdl target_atomic result_atomic compare_operand swap_operand
              wr))
    serve_request-answer (create_work_request reg_buf wr) =
        marking (marks (create_work_request reg_buf wr))
          (target (create_work_request reg_buf wr) s.world) (work (create_work_request reg_buf wr))
    serve_request-answer (clear_work_request wr) =
        marking (marks (clear_work_request wr)) (target (clear_work_request wr) s.world)
          (work (clear_work_request wr))
    serve_request-answer (destroy_work_request wr) =
        marking (marks (destroy_work_request wr)) (target (destroy_work_request wr) s.world)
          (work (destroy_work_request wr))
    serve_request-answer (cancel wr) =
        marking (marks (cancel wr)) (target (cancel wr) s.world) (work (cancel wr))
    serve_request-answer (cancelall wr_list) =
        marking_list (marks (cancelall wr_list)) (target (cancelall wr_list) s.world)
          (work (cancelall wr_list))
    serve_request-answer (interrupt trans_hdl) =
        plain (target (interrupt trans_hdl) s.world) (work (interrupt trans_hdl))
    serve_request-answer (wait wr timeout status) =
        marking (marks (wait wr timeout status)) (target (wait wr timeout status) s.world)
          (work (wait wr timeout status))
    serve_request-answer (waitany wr_list timeout which status) =
        marking_list (marks (waitany wr_list timeout which status))
          (target (waitany wr_list timeout which status) s.world)
          (work (waitany wr_list timeout which status))
    serve_request-answer (waitall wr_list timeout status) =
        marking_list (marks (waitall wr_list timeout status))
          (target (waitall wr_list timeout status) s.world) (work (waitall wr_list timeout status))
