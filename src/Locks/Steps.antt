-- ===== src/Locks/Steps.antt =====
-- The steps of a thread, and of `n` threads together.
use libupsf.Prelude.{ℕ, suc, ◌-◌, ◌<◌, ◌≡◌, Bool, true, false, [], none, some, ℤ}
use libupsf.Text.{Bytes}
use libupsf.Slots.{Slots, find, upsf_open, upsf_close}
use libupsf.Locks.Counting.{set}

-- Where a thread stands.
pub data Pc : Type 0 where
  idle : Pc  -- in no call of the library
  wants_open : Bytes → ℤ → Pc  -- before the lock of upsf_open
  opening : Bytes → ℤ → Pc  -- behind it
  wants_close : Pc
  closing : Pc
  wants_call : Pc  -- before the shared lock of any other call
  looking : Pc  -- behind it, before the slot is looked up
  wants_slot : Bytes → Pc  -- before the lock of the slot, whose address is at hand
  calling : Bytes → Pc  -- behind it, with the call of the server

pub record Shared : Type 0 where
  pub slots : Slots
  -- upsf_slots_mutex: held exclusively, and how often it is held shared
  pub writer : Bool
  pub readers : ℕ
  -- upsf_slot_mutex of the slot of each thread
  pub held : ℕ → Bool

-- One step of the thread `i`. When it starts a call, and which, is left open.
pub data Move (i : ℕ) (s : Shared) : Pc → Shared → Pc → Type 0 where
  ask_open : {host : Bytes} {port : ℤ} → Move i s Pc.idle s (Pc.wants_open host port)
  ask_close : Move i s Pc.idle s Pc.wants_close
  ask_call : Move i s Pc.idle s Pc.wants_call
  lock_open :
      {host : Bytes} {port : ℤ}
      → s.writer ≡ false
      → s.readers ≡ 0
      → Move i s (Pc.wants_open host port) (record s { writer = true }) (Pc.opening host port)
  do_open :
      {host : Bytes} {port : ℤ}
      → Move i s
          (Pc.opening host port)
          (record s { slots = (upsf_open host port i s.slots).0; writer = false })
          Pc.idle
  lock_close :
      s.writer ≡ false
      → s.readers ≡ 0
      → Move i s Pc.wants_close (record s { writer = true }) Pc.closing
  do_close :
      Move i s Pc.closing (record s { slots = (upsf_close i s.slots).0; writer = false }) Pc.idle
  lock_shared :
      s.writer ≡ false → Move i s Pc.wants_call (record s { readers = suc s.readers }) Pc.looking
  no_slot :
      find i s.slots ≡ none → Move i s Pc.looking (record s { readers = s.readers - 1 }) Pc.idle
  -- upsf_exists looks for the slot and returns.
  exists_ends : Move i s Pc.looking (record s { readers = s.readers - 1 }) Pc.idle
  has_slot :
      {addr : Bytes} → find i s.slots ≡ some addr → Move i s Pc.looking s (Pc.wants_slot addr)
  lock_slot :
      {addr : Bytes}
      → s.held i ≡ false
      → Move i s (Pc.wants_slot addr) (record s { held = set s.held i true }) (Pc.calling addr)
  finish :
      {addr : Bytes}
      → Move i s
          (Pc.calling addr)
          (record s { held = set s.held i false; readers = s.readers - 1 })
          Pc.idle

pub record System : Type 0 where
  pub shared : Shared
  pub pc : ℕ → Pc

pub data Step (n : ℕ) (s : System) : System → Type 0 where
  pick :
      (i : ℕ) {m : Shared} {p : Pc}
      → i < n
      → Move i s.shared (s.pc i) m p
      → Step n s (record { shared = m; pc = set s.pc i p })

abbrev pub init : System
init = record {
  shared = record { slots = []; writer = false; readers = 0; held = λ i. false };
  pc = λ i. Pc.idle;
}

pub data Reach (n : ℕ) : System → Type 0 where
  start : Reach n init
  later : {s t : System} → Reach n s → Step n s t → Reach n t
