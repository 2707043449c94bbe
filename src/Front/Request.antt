-- ===== src/Front/Request.antt =====
-- The calls of the interface as data: what each is about, and sequences of them.
use nnti.Base.{ℕ, Bool, true, false, Option, none, some, List, [], ◌∷◌}
use nnti.Types.{NntiResult}
use nnti.Front.{
  World, Effect, Ops, Front, Build, mark_peer, mark_buffer, mark_request, mark_requests,
  mark_status, mark_statuses, last_id, allowed,
}
use nnti.Front.TransportId
use nnti.Front.Session.{nnti_init, nnti_fini}
use nnti.Front.Calls.{
  nnti_get_url, nnti_connect, nnti_disconnect, nnti_alloc, nnti_free, nnti_register_memory,
  nnti_register_segments, nnti_unregister_memory, nnti_send, nnti_put, nnti_get, nnti_scatter,
  nnti_gather, nnti_atomic_set_callback, nnti_atomic_read, nnti_atomic_fop, nnti_atomic_cswap,
  nnti_create_work_request, nnti_clear_work_request, nnti_destroy_work_request, nnti_cancel,
  nnti_cancelall, nnti_interrupt, nnti_wait, nnti_waitany, nnti_waitall,
}

-- The calls that are passed on, with their arguments.
pub data Request : Type 0 where
  get_url : ℕ → ℕ → ℕ → Request
  connect : ℕ → ℕ → ℕ → ℕ → Request
  disconnect : ℕ → ℕ → Request
  alloc : ℕ → ℕ → ℕ → ℕ → ℕ → Request
  free : ℕ → Request
  register_memory : ℕ → ℕ → ℕ → ℕ → ℕ → ℕ → Request
  register_segments : ℕ → ℕ → ℕ → ℕ → ℕ → ℕ → Request
  unregister_memory : ℕ → Request
  send : ℕ → ℕ → ℕ → ℕ → Request
  put : ℕ → ℕ → ℕ → ℕ → ℕ → ℕ → Request
  get : ℕ → ℕ → ℕ → ℕ → ℕ → ℕ → Request
  scatter : ℕ → ℕ → List ℕ → ℕ → ℕ → Request
  gather : List ℕ → ℕ → ℕ → ℕ → ℕ → Request
  atomic_set_callback : ℕ → ℕ → ℕ → ℕ → Request
  atomic_read : ℕ → ℕ → ℕ → Request
  atomic_fop : ℕ → ℕ → ℕ → ℕ → ℕ → ℕ → ℕ → Request
  atomic_cswap : ℕ → ℕ → ℕ → ℕ → ℕ → ℕ → ℕ → Request
  create_work_request : ℕ → ℕ → Request
  clear_work_request : ℕ → Request
  destroy_work_request : ℕ → Request
  cancel : ℕ → Request
  cancelall : List ℕ → Request
  interrupt : ℕ → Request
  wait : ℕ → ℕ → ℕ → Request
  waitany : List ℕ → ℕ → ℕ → ℕ → Request
  waitall : List ℕ → ℕ → List ℕ → Request

pub data Call : Type 0 where
  init : ℕ → ℕ → ℕ → Call
  request : Request → Call
  fini : ℕ → Call

-- The transport that a request is for.
abbrev pub target : {W : Type 0} → Request → World W → ℕ
target (get_url trans_hdl _ _) w = (w.transports trans_hdl).transport_id
target (connect trans_hdl _ _ _) w = (w.transports trans_hdl).transport_id
target (disconnect trans_hdl _) w = (w.transports trans_hdl).transport_id
target (alloc trans_hdl _ _ _ _) w = (w.transports trans_hdl).transport_id
target (free reg_buf) w = (w.buffers reg_buf).transport_id
target (register_memory trans_hdl _ _ _ _ _) w = (w.transports trans_hdl).transport_id
target (register_segments trans_hdl _ _ _ _ _) w = (w.transports trans_hdl).transport_id
target (unregister_memory reg_buf) w = (w.buffers reg_buf).transport_id
target (send _ msg_hdl _ _) w = (w.buffers msg_hdl).transport_id
target (put src_buffer_hdl _ _ _ _ _) w = (w.buffers src_buffer_hdl).transport_id
target (get _ _ _ dest_buffer_hdl _ _) w = (w.buffers dest_buffer_hdl).transport_id
target (scatter src_buffer_hdl _ _ _ _) w = (w.buffers src_buffer_hdl).transport_id
target (gather _ _ _ dest_buffer_hdl _) w = (w.buffers dest_buffer_hdl).transport_id
target (atomic_set_callback trans_hdl _ _ _) w = (w.transports trans_hdl).transport_id
target (atomic_read trans_hdl _ _) w = (w.transports trans_hdl).transport_id
target (atomic_fop trans_hdl _ _ _ _ _ _) w = (w.transports trans_hdl).transport_id
target (atomic_cswap trans_hdl _ _ _ _ _ _) w = (w.transports trans_hdl).transport_id
target (create_work_request reg_buf _) w = (w.buffers reg_buf).transport_id
target (clear_work_request wr) w = (w.requests wr).transport_id
target (destroy_work_request wr) w = (w.requests wr).transport_id
target (cancel wr) w = (w.requests wr).transport_id
target (cancelall wr_list) w = last_id w TransportId.null wr_list
target (interrupt trans_hdl) w = (w.transports trans_hdl).transport_id
target (wait wr _ _) w = (w.requests wr).transport_id
target (waitany wr_list _ _ _) w = last_id w TransportId.null wr_list
target (waitall wr_list _ _) w = last_id w TransportId.null wr_list

-- Does it look its transport up in a list, in which there may be none?
abbrev pub listed : Request → Bool
listed (cancelall _) = true
listed (waitany _ _ _ _) = true
listed (waitall _ _ _) = true
listed _ = false

-- The transport's function for it.
abbrev pub work : {W : Type 0} → Request → Ops W → Effect W
work (get_url trans_hdl url maxlen) ops = ops.get_url_fn trans_hdl url maxlen
work (connect trans_hdl url timeout peer_hdl) ops = ops.connect_fn trans_hdl url timeout peer_hdl
work (disconnect trans_hdl peer_hdl) ops = ops.disconnect_fn trans_hdl peer_hdl
work (alloc trans_hdl element_size num_elements buf_ops reg_buf) ops =
    ops.alloc_fn trans_hdl element_size num_elements buf_ops reg_buf
work (free reg_buf) ops = ops.free_fn reg_buf
work (register_memory trans_hdl buffer element_size num_elements buf_ops reg_buf) ops =
    allowed buf_ops
      (ops.register_memory_fn trans_hdl buffer element_size num_elements buf_ops reg_buf)
work (register_segments trans_hdl segments segment_lengths num_segments buf_ops reg_buf) ops =
    allowed buf_ops
      (ops.register_segments_fn trans_hdl segments segment_lengths num_segments buf_ops reg_buf)
work (unregister_memory reg_buf) ops = ops.unregister_memory_fn reg_buf
work (send peer_hdl msg_hdl dest_hdl wr) ops = ops.send_fn peer_hdl msg_hdl dest_hdl wr
work (put src_buffer_hdl src_offset src_length dest_buffer_hdl dest_offset wr) ops =
    ops.put_fn src_buffer_hdl src_offset src_length dest_buffer_hdl dest_offset wr
work (get src_buffer_hdl src_offset src_length dest_buffer_hdl dest_offset wr) ops =
    ops.get_fn src_buffer_hdl src_offset src_length dest_buffer_hdl dest_offset wr
work (scatter src_buffer_hdl src_length dest_buffer_list dest_count wr) ops =
    ops.scatter_fn src_buffer_hdl src_length dest_buffer_list dest_count wr
work (gather src_buffer_list src_length src_count dest_buffer_hdl wr) ops =
    ops.gather_fn src_buffer_list src_length src_count dest_buffer_hdl wr
work (atomic_set_callback trans_hdl local_atomic cbfunc context) ops =
    ops.atomic_set_callback_fn trans_hdl local_atomic cbfunc context
work (atomic_read trans_hdl local_atomic value) ops =
    ops.atomic_read_fn trans_hdl local_atomic value
work (atomic_fop trans_hdl peer_hdl target_atomic result_atomic operand op wr) ops =
    ops.atomic_fop_fn trans_hdl peer_hdl target_atomic result_atomic operand op wr
work (atomic_cswap trans_hdl peer_hdl target_atomic result_atomic compare_operand swap_operand wr)
      ops =
    ops.atomic_cswap_fn trans_hdl peer_hdl target_atomic result_atomic compare_operand swap_operand
      wr
work (create_work_request reg_buf wr) ops = ops.create_work_request_fn reg_buf wr
work (clear_work_request wr) ops = ops.clear_work_request_fn wr
work (destroy_work_request wr) ops = ops.destroy_work_request_fn wr
work (cancel wr) ops = ops.cancel_fn wr
work (cancelall wr_list) ops = ops.cancelall_fn wr_list
work (interrupt trans_hdl) ops = ops.interrupt_fn trans_hdl
work (wait wr timeout status) ops = ops.wait_fn wr timeout status
work (waitany wr_list timeout which status) ops = ops.waitany_fn wr_list timeout which status
work (waitall wr_list timeout status) ops = ops.waitall_fn wr_list timeout status

-- The objects it marks.
abbrev pub marks : {W : Type 0} → Request → World W → World W
marks (connect _ _ _ peer_hdl) w = mark_peer peer_hdl w
marks (alloc _ _ _ _ reg_buf) w = mark_buffer reg_buf w
marks (register_memory _ _ _ _ _ reg_buf) w = mark_buffer reg_buf w
marks (register_segments _ _ _ _ _ reg_buf) w = mark_buffer reg_buf w
marks (send _ _ _ wr) w = mark_request wr w
marks (put _ _ _ _ _ wr) w = mark_request wr w
marks (get _ _ _ _ _ wr) w = mark_request wr w
marks (scatter _ _ _ _ wr) w = mark_request wr w
marks (gather _ _ _ _ wr) w = mark_request wr w
marks (atomic_fop _ _ _ _ _ _ wr) w = mark_request wr w
marks (atomic_cswap _ _ _ _ _ _ wr) w = mark_request wr w
marks (create_work_request _ wr) w = mark_request wr w
marks (clear_work_request wr) w = mark_request wr w
marks (destroy_work_request wr) w = mark_request wr w
marks (cancel wr) w = mark_request wr w
marks (cancelall wr_list) w = mark_requests wr_list w
marks (wait _ _ status) w = mark_status status w
marks (waitany _ _ _ status) w = mark_status status w
marks (waitall _ _ status) w = mark_statuses status w
marks _ w = w

module _ {W : Type 0} where
  -- The function of the interface for each request.
  abbrev pub serve_request : Request → Front W → Option (NntiResult × Front W)
  serve_request (get_url trans_hdl url maxlen) s = nnti_get_url trans_hdl url maxlen s
  serve_request (connect trans_hdl url timeout peer_hdl) s =
      nnti_connect trans_hdl url timeout peer_hdl s
  serve_request (disconnect trans_hdl peer_hdl) s = nnti_disconnect trans_hdl peer_hdl s
  serve_request (alloc trans_hdl element_size num_elements buf_ops reg_buf) s =
      nnti_alloc trans_hdl element_size num_elements buf_ops reg_buf s
  serve_request (free reg_buf) s = nnti_free reg_buf s
  serve_request (register_memory trans_hdl buffer element_size num_elements buf_ops reg_buf) s =
      nnti_register_memory trans_hdl buffer element_size num_elements buf_ops reg_buf s
  serve_request (register_segments trans_hdl segments segment_lengths num_segments buf_ops reg_buf)
        s =
      nnti_register_segments trans_hdl segments segment_lengths num_segments buf_ops reg_buf s
  serve_request (unregister_memory reg_buf) s = nnti_unregister_memory reg_buf s
  serve_request (send peer_hdl msg_hdl dest_hdl wr) s = nnti_send peer_hdl msg_hdl dest_hdl wr s
  serve_request (put src_buffer_hdl src_offset src_length dest_buffer_hdl dest_offset wr) s =
      nnti_put src_buffer_hdl src_offset src_length dest_buffer_hdl dest_offset wr s
  serve_request (get src_buffer_hdl src_offset src_length dest_buffer_hdl dest_offset wr) s =
      nnti_get src_buffer_hdl src_offset src_length dest_buffer_hdl dest_offset wr s
  serve_request (scatter src_buffer_hdl src_length dest_buffer_list dest_count wr) s =
      nnti_scatter src_buffer_hdl src_length dest_buffer_list dest_count wr s
  serve_request (gather src_buffer_list src_length src_count dest_buffer_hdl wr) s =
      nnti_gather src_buffer_list src_length src_count dest_buffer_hdl wr s
  serve_request (atomic_set_callback trans_hdl local_atomic cbfunc context) s =
      nnti_atomic_set_callback trans_hdl local_atomic cbfunc context s
  serve_request (atomic_read trans_hdl local_atomic value) s =
      nnti_atomic_read trans_hdl local_atomic value s
  serve_request (atomic_fop trans_hdl peer_hdl target_atomic result_atomic operand op wr) s =
      nnti_atomic_fop trans_hdl peer_hdl target_atomic result_atomic operand op wr s
  serve_request
        (atomic_cswap trans_hdl peer_hdl target_atomic result_atomic compare_operand swap_operand
          wr)
        s =
      nnti_atomic_cswap trans_hdl peer_hdl target_atomic result_atomic compare_operand swap_operand
        wr s
  serve_request (create_work_request reg_buf wr) s = nnti_create_work_request reg_buf wr s
  serve_request (clear_work_request wr) s = nnti_clear_work_request wr s
  serve_request (destroy_work_request wr) s = nnti_destroy_work_request wr s
  serve_request (cancel wr) s = nnti_cancel wr s
  serve_request (cancelall wr_list) s = nnti_cancelall wr_list s
  serve_request (interrupt trans_hdl) s = nnti_interrupt trans_hdl s
  serve_request (wait wr timeout status) s = nnti_wait wr timeout status s
  serve_request (waitany wr_list timeout which status) s =
      nnti_waitany wr_list timeout which status s
  serve_request (waitall wr_list timeout status) s = nnti_waitall wr_list timeout status s

  abbrev pub serve : Build W → Call → Front W → Option (NntiResult × Front W)
  serve build (init trans_id my_url trans_hdl) s = nnti_init build trans_id my_url trans_hdl s
  serve build (request r) s = serve_request r s
  serve build (fini trans_hdl) s = nnti_fini trans_hdl s

  abbrev pub prepend :
      NntiResult → Option (List NntiResult × World W) → Option (List NntiResult × World W)
  prepend rc none = none
  prepend rc (some (rcs, w)) = some (rc ∷ rcs, w)

  abbrev pub next :
      {S : Type 0}
      → Option (NntiResult × S)
      → (S → Option (List NntiResult × World W))
      → Option (List NntiResult × World W)
  next none k = none
  next (some (rc, s)) k = prepend rc (k s)

  -- A sequence of calls: their results, and the memory after them.
  abbrev pub serve_all : Build W → List Call → Front W → Option (List NntiResult × World W)
  serve_all build [] s = some ([], s.world)
  serve_all build (c ∷ cs) s = next (serve build c s) (serve_all build cs)
