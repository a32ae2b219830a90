-- ===== src/Tests/Locked.antt =====
-- States of the locks, and concrete cases of what holds in them.
use libupsf.Prelude.{ℕ, ◌+◌, ◌<◌, ◌≤◌, ◌≡◌, refl, true, false, [], some, pos, arith}
use libupsf.Text.{Bytes}
use libupsf.Slots.{find, address, upsf_open}
use libupsf.Printing.Common.{codes}
use libupsf.Locks.Counting.{set}
use libupsf.Locks.Steps.{Pc, Move, System, pick, Reach, start, later}
use libupsf.Locks.Invariant.{writing, reading}
use libupsf.Locks.Safety.{map_exclusive, slot_kept}
use libupsf.Locks.Progress.{
  here, next, GoesOn, AllReturn, left, no_deadlock, Runs_bounded, calls_return,
}

abbrev host : Bytes
host = codes "localhost"

-- Thread 0 opens, and thread 1 has asked to.
abbrev opening_0 : (s : System) × Reach 2 s
opening_0 = (
  _,
  later
      (later (later start (pick 0 (omega arith) (Move.ask_open {host = host} {port = pos 50051})))
        (pick 1 (omega arith) (Move.ask_open {host = host} {port = pos 50051})))
      (pick 0 (omega arith) (Move.lock_open refl refl)),
)

-- Thread 0 is in a call of the server, and thread 1 waits to open.
abbrev calling_0 : (s : System) × Reach 2 s
unfolding upsf_open find
calling_0 = (
  _,
  later
      (later
        (later
          (later (later opening_0.1 (pick 0 (omega arith) Move.do_open))
            (pick 0 (omega arith) Move.ask_call))
          (pick 0 (omega arith) (Move.lock_shared refl)))
        (pick 0 (omega arith) (Move.has_slot {addr = address host (pos 50051)} refl)))
      (pick 0 (omega arith) (Move.lock_slot refl)),
)

map_exclusive_example : (writing (opening_0.0.pc 1) ≡ 0) × (reading (opening_0.0.pc 1) ≡ 0)
map_exclusive_example =
    map_exclusive opening_0.1 0 1 (omega arith) (omega arith) (λ e. omega arith) refl

slot_kept_example :
    (find 0 calling_0.0.shared.slots ≡ some (address host (pos 50051)))
    × (calling_0.0.shared.held 0 ≡ true)
unfolding calling_0
slot_kept_example = slot_kept calling_0.1 0 (address host (pos 50051)) refl

no_deadlock_example : (j : ℕ) × (j < 2) × GoesOn j calling_0.0.shared (calling_0.0.pc j)
unfolding calling_0
no_deadlock_example = no_deadlock calling_0.1 1 (omega arith) (λ e. cc)

calls_return_example : AllReturn 2 calling_0.0
calls_return_example = calls_return calling_0.1

-- The first thread has taken one more step.
abbrev opened_0 : System
opened_0 = record {
  shared = record opening_0.0.shared {
    slots = (upsf_open host (pos 50051) 0 []).0;
    writer = false;
  };
  pc = set opening_0.0.pc 0 Pc.idle;
}

Runs_bounded_example : 1 + left 2 opened_0 ≤ left 2 opening_0.0
Runs_bounded_example =
    Runs_bounded {n = 2} {s = opening_0.0}
      (next 0 here (omega arith) (Move.do_open {host = host} {port = pos 50051}) (λ e. cc))
