-- ===== src/Slots/Threads.antt =====
-- What each thread sees of the slots.
use libupsf.Prelude.{
  ℕ, ◌≡◌, ◌⊎◌, [], ◌∷◌, Option, none, some, ℤ, pos, negsuc, arith, ◌==◌, if◌then◌else◌,
}
use libupsf.Text.{Bytes}
use libupsf.Slots.{Slots, find, erase, address, upsf_open, upsf_close, upsf_exists}

find-erase :
    (tid other : ℕ) (slots : Slots)
    → find other (erase tid slots) ≡ (if tid == other then none else find other slots)
unfolding find erase
find-erase tid other [] = ground arith
find-erase tid other ((t, addr) ∷ slots) = ground (arith, find-erase tid other slots)

-- The address that a thread has after it opened: the one that it had, or the one that it asks for.
abbrev pub opened : Option Bytes → Bytes → Bytes
opened none asked = asked
opened (some addr) asked = addr

-- Opening always succeeds. The thread then has a slot: its old one, whatever address is asked for,
-- or a new one at that address. Every other thread has the slot that it had.
pub upsf_open_lem :
    (host : Bytes) (port : ℤ) (tid other : ℕ) (slots : Slots)
    → ((upsf_open host port tid slots).1 ≡ pos 0)
      × (find other (upsf_open host port tid slots).0 ≡ (
          if tid == other
          then some (opened (find tid slots) (address host port))
          else find other slots))
unfolding upsf_open find
upsf_open_lem host port tid other slots = (ground arith, ground arith)

-- Closing succeeds exactly if the thread has a slot, and changes nothing if it has none. It has none
-- afterwards, and every other thread has the slot that it had.
pub upsf_close_lem :
    (tid other : ℕ) (slots : Slots)
    → (((upsf_exists tid slots ≡ pos 1) × ((upsf_close tid slots).1 ≡ pos 0))
        ⊎ ((upsf_exists tid slots ≡ pos 0) × (upsf_close tid slots ≡ (slots, negsuc 0))))
      × (find other (upsf_close tid slots).0 ≡ (if tid == other then none else find other slots))
unfolding upsf_close upsf_exists
upsf_close_lem tid other slots = (ground arith, ground (arith, find-erase tid other slots))

-- A thread that closes its slot and opens again is connected to the address that it asks for now,
-- while one that opens twice stays connected to the first.
pub upsf_reopen :
    (host host' : Bytes) (port port' : ℤ) (tid : ℕ) (slots : Slots)
    → (find tid (upsf_open host port tid (upsf_close tid slots).0).0 ≡ some (address host port))
      × (find tid (upsf_open host' port' tid (upsf_open host port tid (upsf_close tid slots).0).0).0
          ≡ some (address host port))
unfolding upsf_open upsf_close find
upsf_reopen host host' port port' tid slots =
    let gone = find-erase tid tid slots in (ground arith, ground arith)
