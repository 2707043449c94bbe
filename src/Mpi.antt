-- ===== src/Mpi.antt =====
-- nnti/nnti_mpi.cpp, the MPI transport: its types and state, the calls that start operations, those
-- that register buffers, the events, the atomic variables, and the wait that drives it all.
pub mod State
pub mod Machine
pub mod Event
pub mod Initiate
pub mod Register
pub mod Atomics
pub mod Wait
pub mod Peer
pub mod Setup
mod Tests
