-- ===== src/Locks.antt =====
-- The locks of upsf/upsf_c_wrapper.cpp: `upsf_slots_mutex`, which upsf_open and upsf_close take
-- exclusively and every other function that looks for a slot takes shared until it returns, and the
-- mutex of the calling thread's slot, which all of these but upsf_exists take next and hold while they
-- call the server. A lock is released when the function returns. The threads are interleaved in any
-- order, a step at a time.
pub mod Counting
pub mod Steps
pub mod Invariant
pub mod Safety
pub mod Progress
