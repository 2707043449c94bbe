-- ===== src/Front/Calls.antt =====
-- nnti/nnti.c: the functions of the interface.
use nnti.Base.{ℕ, Option, List}
use nnti.Types.{NntiResult}
use nnti.Front.{
  Front, dispatch, then_mark, mark_peer, mark_buffer, mark_request, mark_requests, mark_status,
  mark_statuses, last_id, dispatch_list, allowed,
}
use nnti.Front.TransportId

module _ {W : Type 0} where
  -- `NNTI_get_url`
  unfoldable pub nnti_get_url : ℕ → ℕ → ℕ → Front W → Option (NntiResult × Front W)
  nnti_get_url trans_hdl url maxlen s =
      dispatch (s.world.transports trans_hdl).transport_id
        (λ ops. ops.get_url_fn trans_hdl url maxlen) s

  -- `NNTI_connect`
  unfoldable pub nnti_connect : ℕ → ℕ → ℕ → ℕ → Front W → Option (NntiResult × Front W)
  nnti_connect trans_hdl url timeout peer_hdl s = then_mark (mark_peer peer_hdl) (
      dispatch (s.world.transports trans_hdl).transport_id
        (λ ops. ops.connect_fn trans_hdl url timeout peer_hdl) s)

  -- `NNTI_disconnect`
  unfoldable pub nnti_disconnect : ℕ → ℕ → Front W → Option (NntiResult × Front W)
  nnti_disconnect trans_hdl peer_hdl s =
      dispatch (s.world.transports trans_hdl).transport_id
        (λ ops. ops.disconnect_fn trans_hdl peer_hdl) s

  -- `NNTI_alloc`
  unfoldable pub nnti_alloc : ℕ → ℕ → ℕ → ℕ → ℕ → Front W → Option (NntiResult × Front W)
  nnti_alloc trans_hdl element_size num_elements buf_ops reg_buf s =
      then_mark (mark_buffer reg_buf) (
        dispatch (s.world.transports trans_hdl).transport_id
          (λ ops. ops.alloc_fn trans_hdl element_size num_elements buf_ops reg_buf) s)

  -- `NNTI_free`
  unfoldable pub nnti_free : ℕ → Front W → Option (NntiResult × Front W)
  nnti_free reg_buf s =
      dispatch (s.world.buffers reg_buf).transport_id (λ ops. ops.free_fn reg_buf) s

  -- `NNTI_register_memory`
  unfoldable pub nnti_register_memory :
      ℕ → ℕ → ℕ → ℕ → ℕ → ℕ → Front W → Option (NntiResult × Front W)
  nnti_register_memory trans_hdl buffer element_size num_elements buf_ops reg_buf s =
      then_mark (mark_buffer reg_buf) (
        dispatch (s.world.transports trans_hdl).transport_id
          (λ ops.
            allowed buf_ops
              (ops.register_memory_fn trans_hdl buffer element_size num_elements buf_ops reg_buf))
          s)

  -- `NNTI_register_segments`
  unfoldable pub nnti_register_segments :
      ℕ → ℕ → ℕ → ℕ → ℕ → ℕ → Front W → Option (NntiResult × Front W)
  nnti_register_segments trans_hdl segments segment_lengths num_segments buf_ops reg_buf s =
      then_mark (mark_buffer reg_buf) (
        dispatch (s.world.transports trans_hdl).transport_id
          (λ ops. allowed buf_ops (
            ops.register_segments_fn trans_hdl segments segment_lengths num_segments buf_ops
              reg_buf))
          s)

  -- `NNTI_unregister_memory`
  unfoldable pub nnti_unregister_memory : ℕ → Front W → Option (NntiResult × Front W)
  nnti_unregister_memory reg_buf s =
      dispatch (s.world.buffers reg_buf).transport_id (λ ops. ops.unregister_memory_fn reg_buf) s

  -- `NNTI_send`
  unfoldable pub nnti_send : ℕ → ℕ → ℕ → ℕ → Front W → Option (NntiResult × Front W)
  nnti_send peer_hdl msg_hdl dest_hdl wr s = then_mark (mark_request wr) (
      dispatch (s.world.buffers msg_hdl).transport_id
        (λ ops. ops.send_fn peer_hdl msg_hdl dest_hdl wr) s)

  -- `NNTI_put`
  unfoldable pub nnti_put : ℕ → ℕ → ℕ → ℕ → ℕ → ℕ → Front W → Option (NntiResult × Front W)
  nnti_put src_buffer_hdl src_offset src_length dest_buffer_hdl dest_offset wr s =
      then_mark (mark_request wr) (
        dispatch (s.world.buffers src_buffer_hdl).transport_id
          (λ ops. ops.put_fn src_buffer_hdl src_offset src_length dest_buffer_hdl dest_offset wr) s)

  -- `NNTI_get`
  unfoldable pub nnti_get : ℕ → ℕ → ℕ → ℕ → ℕ → ℕ → Front W → Option (NntiResult × Front W)
  nnti_get src_buffer_hdl src_offset src_length dest_buffer_hdl dest_offset wr s =
      then_mark (mark_request wr) (
        dispatch (s.world.buffers dest_buffer_hdl).transport_id
          (λ ops. ops.get_fn src_buffer_hdl src_offset src_length dest_buffer_hdl dest_offset wr) s)

  -- `NNTI_scatter`
  unfoldable pub nnti_scatter : ℕ → ℕ → List ℕ → ℕ → ℕ → Front W → Option (NntiResult × Front W)
  nnti_scatter src_buffer_hdl src_length dest_buffer_list dest_count wr s =
      then_mark (mark_request wr) (
        dispatch (s.world.buffers src_buffer_hdl).transport_id
          (λ ops. ops.scatter_fn src_buffer_hdl src_length dest_buffer_list dest_count wr) s)

  -- `NNTI_gather`
  unfoldable pub nnti_gather : List ℕ → ℕ → ℕ → ℕ → ℕ → Front W → Option (NntiResult × Front W)
  nnti_gather src_buffer_list src_length src_count dest_buffer_hdl wr s =
      then_mark (mark_request wr) (
        dispatch (s.world.buffers dest_buffer_hdl).transport_id
          (λ ops. ops.gather_fn src_buffer_list src_length src_count dest_buffer_hdl wr) s)

  -- `NNTI_atomic_set_callback`
  unfoldable pub nnti_atomic_set_callback : ℕ → ℕ → ℕ → ℕ → Front W → Option (NntiResult × Front W)
  nnti_atomic_set_callback trans_hdl local_atomic cbfunc context s =
      dispatch (s.world.transports trans_hdl).transport_id
        (λ ops. ops.atomic_set_callback_fn trans_hdl local_atomic cbfunc context) s

  -- `NNTI_atomic_read`
  unfoldable pub nnti_atomic_read : ℕ → ℕ → ℕ → Front W → Option (NntiResult × Front W)
  nnti_atomic_read trans_hdl local_atomic value s =
      dispatch (s.world.transports trans_hdl).transport_id
        (λ ops. ops.atomic_read_fn trans_hdl local_atomic value) s

  -- `NNTI_atomic_fop`
  unfoldable pub nnti_atomic_fop :
      ℕ → ℕ → ℕ → ℕ → ℕ → ℕ → ℕ → Front W → Option (NntiResult × Front W)
  nnti_atomic_fop trans_hdl peer_hdl target_atomic result_atomic operand op wr s =
      then_mark (mark_request wr) (
        dispatch (s.world.transports trans_hdl).transport_id
          (λ ops. ops.atomic_fop_fn trans_hdl peer_hdl target_atomic result_atomic operand op wr) s)

  -- `NNTI_atomic_cswap`
  unfoldable pub nnti_atomic_cswap :
      ℕ → ℕ → ℕ → ℕ → ℕ → ℕ → ℕ → Front W → Option (NntiResult × Front W)
  nnti_atomic_cswap trans_hdl peer_hdl target_atomic result_atomic compare_operand swap_operand wr
        s =
      then_mark (mark_request wr) (
        dispatch (s.world.transports trans_hdl).transport_id
          (λ ops.
            ops.atomic_cswap_fn trans_hdl peer_hdl target_atomic result_atomic compare_operand
              swap_operand wr)
          s)

  -- `NNTI_create_work_request`
  unfoldable pub nnti_create_work_request : ℕ → ℕ → Front W → Option (NntiResult × Front W)
  nnti_create_work_request reg_buf wr s = then_mark (mark_request wr) (
      dispatch (s.world.buffers reg_buf).transport_id (λ ops. ops.create_work_request_fn reg_buf wr)
        s)

  -- `NNTI_clear_work_request`
  unfoldable pub nnti_clear_work_request : ℕ → Front W → Option (NntiResult × Front W)
  nnti_clear_work_request wr s =
      then_mark (mark_request wr)
        (dispatch (s.world.requests wr).transport_id (λ ops. ops.clear_work_request_fn wr) s)

  -- `NNTI_destroy_work_request`
  unfoldable pub nnti_destroy_work_request : ℕ → Front W → Option (NntiResult × Front W)
  nnti_destroy_work_request wr s =
      then_mark (mark_request wr)
        (dispatch (s.world.requests wr).transport_id (λ ops. ops.destroy_work_request_fn wr) s)

  -- `NNTI_cancel`
  unfoldable pub nnti_cancel : ℕ → Front W → Option (NntiResult × Front W)
  nnti_cancel wr s =
      then_mark (mark_request wr)
        (dispatch (s.world.requests wr).transport_id (λ ops. ops.cancel_fn wr) s)

  -- `NNTI_cancelall`
  unfoldable pub nnti_cancelall : List ℕ → Front W → Option (NntiResult × Front W)
  nnti_cancelall wr_list s =
      then_mark (mark_requests wr_list) (
        dispatch_list (last_id s.world TransportId.null wr_list) (λ ops. ops.cancelall_fn wr_list)
          s)

  -- `NNTI_interrupt`
  unfoldable pub nnti_interrupt : ℕ → Front W → Option (NntiResult × Front W)
  nnti_interrupt trans_hdl s =
      dispatch (s.world.transports trans_hdl).transport_id (λ ops. ops.interrupt_fn trans_hdl) s

  -- `NNTI_wait`
  unfoldable pub nnti_wait : ℕ → ℕ → ℕ → Front W → Option (NntiResult × Front W)
  nnti_wait wr timeout status s =
      then_mark (mark_status status)
        (dispatch (s.world.requests wr).transport_id (λ ops. ops.wait_fn wr timeout status) s)

  -- `NNTI_waitany`
  unfoldable pub nnti_waitany : List ℕ → ℕ → ℕ → ℕ → Front W → Option (NntiResult × Front W)
  nnti_waitany wr_list timeout which status s = then_mark (mark_status status) (
      dispatch_list (last_id s.world TransportId.null wr_list)
        (λ ops. ops.waitany_fn wr_list timeout which status) s)

  -- `NNTI_waitall`
  unfoldable pub nnti_waitall : List ℕ → ℕ → List ℕ → Front W → Option (NntiResult × Front W)
  nnti_waitall wr_list timeout status s = then_mark (mark_statuses status) (
      dispatch_list (last_id s.world TransportId.null wr_list)
        (λ ops. ops.waitall_fn wr_list timeout status) s)
