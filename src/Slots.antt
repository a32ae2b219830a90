-- ===== src/Slots.antt =====
-- upsf_open, upsf_close and upsf_exists of upsf/upsf_c_wrapper.cpp: the map `upsf_slots` from threads
-- to slots. A slot is the address that its client is connected to; every call holds the lock of the
-- map, so calls run one after the other. The thread that calls is an argument.
pub mod Threads
pub mod Address
use libupsf.Prelude.{
  ℕ, zero, suc, ◌+◌, ◌/◌, ◌%◌, Bool, true, false, List, [], ◌∷◌, ◌++◌, Option, none, some, ℤ, pos,
  negsuc, ltb, ◌==◌, if◌then◌else◌,
}
use libupsf.Text.{Bytes}

abbrev pub Slots : Type 0
Slots = List (ℕ × Bytes)

-- upsf_slots.find(tid)
unfoldable pub find : ℕ → Slots → Option Bytes
find tid [] = none
find tid ((t, addr) ∷ slots) = if t == tid then some addr else find tid slots

-- upsf_slots.erase(tid)
unfoldable pub erase : ℕ → Slots → Slots
erase tid [] = []
erase tid ((t, addr) ∷ slots) =
    let rest = erase tid slots in if t == tid then rest else (t, addr) ∷ rest

-- The decimal digits of a number, with one unit of fuel for each.
unfoldable pub digits : ℕ → ℕ → Bytes
digits zero n = []
digits (suc fuel) n =
    let front = digits fuel (n / 10) in
    if ltb n 10 then (b'0' + n) ∷ [] else front ++ (b'0' + n % 10) ∷ []

-- os << n, for an int of 32 bits; it has at most ten digits.
unfoldable pub show_int : ℤ → Bytes
unfolding digits
show_int (pos n) = digits 10 n
show_int (negsuc n) = b'-' ∷ digits 10 (suc n)

unfoldable pub address : Bytes → ℤ → Bytes
unfolding show_int
address host port = host ++ (b':' ∷ show_int port)

unfoldable pub upsf_open : Bytes → ℤ → ℕ → Slots → Slots × ℤ
unfolding find
upsf_open host port tid slots = elim (find tid slots) [
  | none ↦ ((tid, address host port) ∷ slots, pos 0)
  | some addr ↦ (slots, pos 0)
]

unfoldable pub upsf_close : ℕ → Slots → Slots × ℤ
unfolding find erase
upsf_close tid slots = elim (find tid slots) [
  | none ↦ (slots, negsuc 0)
  | some addr ↦ (erase tid slots, pos 0)
]

unfoldable pub upsf_exists : ℕ → Slots → ℤ
unfolding find
upsf_exists tid slots = elim (find tid slots) [ none ↦ pos 0 | some addr ↦ pos 1 ]
