-- ===== src/Mpi/Register/Unregister.antt =====
-- `target_buffers`, the deque of buffers that are polled for commands, and deregistration.
use nnti.Base.{
  ℕ, ◌≤◌, ◌≡◌, ◌≢◌, ◌∙◌, ap, true, false, none, some, List, ◌==◌, if◌then◌else◌, mem, erase, count,
  update, update_self, update_ne, arith, count-append, count_of_mem, mem_of_count, mem-append,
  count-erase, mem-erase,
}
use nnti.Types.{NntiResult, ok}
use nnti.Mpi.Register.{insert_target, del_target_buffer, unregister_memory}
use nnti.Mpi.State.{any_source, MemoryHandle, null_transport, Buffer}
use nnti.Mpi.Machine.{
  get_buffer_lem, >>=-eq_of_some, Transport, M, pure, ◌>>=◌, ◌>>◌, assert_some, get_buffer,
  put_buffer,
}

-- An address that is in the deque once at most is so after an insertion too; it is there after it
-- if it was before or is the one that was inserted.
pub insert_target_lem :
    (a b : ℕ) (targets : List ℕ)
    → count a targets ≤ 1
    → (count a (insert_target b targets) ≤ 1)
      × (mem a (insert_target b targets) ≡ (if b == a then true else mem a targets))
insert_target_lem a b targets h =
    ground (arith, count-append a b targets, count_of_mem a targets, mem-append a b targets)

-- What is left of a buffer's structure.
abbrev pub cleared : Buffer
cleared = record {
  transport_id = null_transport;
  buffer_owner = any_source;
  segment = none;
  ops = 0;
  payload_size = 0;
  payload = 0;
  transport_private = none;
}

-- Deregistration of a registered buffer succeeds: its structure is cleared, it is not polled any
-- more (if it was in the deque once at most), and another buffer neither changes nor leaves the deque.
pub unregister_memory_lem :
    (b a : ℕ) (s : Transport) (x : Buffer) (h : MemoryHandle)
    → s.buffers b ≡ some x
    → x.transport_private ≡ some h
    → count b s.target_buffers ≤ 1
    → a ≢ b
    → (s' : Transport) × (unregister_memory b s ≡ some (ok, s'))
      × (s'.buffers b ≡ some cleared)
      × (mem b s'.target_buffers ≡ false)
      × (s'.buffers a ≡ s.buffers a)
      × (mem a s'.target_buffers ≡ mem a s.target_buffers)
unfolding unregister_memory
unregister_memory_lem b a s x h at handle once ne =
    let rest : M NntiResult = del_target_buffer b >>= λ _. put_buffer b cleared >> pure ok in
    (
      record s {
        target_buffers = erase b s.target_buffers;
        buffers = update s.buffers b (some cleared);
      },
      >>=-eq_of_some (get_buffer b) (λ x. assert_some x.transport_private >>= λ _. rest) s
            (get_buffer_lem b s x at)
          ∙ ap (λ o. (assert_some o >>= λ _. rest) s) handle,
      update_self s.buffers b (some cleared),
      mem_of_count b (erase b s.target_buffers) (ground (arith, count-erase b b s.target_buffers)),
      update_ne s.buffers b a (some cleared) ne,
      mem-erase a b s.target_buffers ne,
    )
