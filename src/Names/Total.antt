-- ===== src/Names/Total.antt =====
-- Which numbers have a name.
use Prim.Native.String.{String}
use libupsf.Prelude.{
  ℕ, zero, suc, ◌+◌, ltb, if◌then◌else◌, ◌<◌, ◌≡◌, refl, List, [], ◌∷◌, Option, none, some, ℤ, pos,
  negsuc, arith, length,
}
use libupsf.Names.{
  derived_state_names, item_type_names, maintenance_req_names, mbb_state_names, entry, name_of,
  upsf_derived_state_to_name, upsf_item_type_to_name, upsf_maintenance_req_to_name,
  upsf_mbb_state_to_name,
}
use libupsf.WellFormed.Arrays.{IsDefined}

-- Every number has a name, those from `max` on are called void, and those below 0 read outside of the
-- table.
pub record HasNames (f : ℤ → Option String) (max : ℕ) : Type 0 where
  pub known : (n : ℕ) → IsDefined (f (pos n))
  pub void : (k : ℕ) → f (pos (max + k)) ≡ some "void"
  pub negative : (n : ℕ) → f (negsuc n) ≡ none

entry_in : (names : List String) (n : ℕ) → n < length names → IsDefined (entry names n)
unfolding entry
entry_in [] n h = absurd (omega arith)
entry_in (s ∷ names) zero h = (s, refl)
entry_in (s ∷ names) (suc n) h = entry_in names n (omega arith)

name_of-HasNames :
    (names : List String) (max : ℕ)
    → max < length names
    → entry names max ≡ some "void"
    → HasNames (name_of names max) max
unfolding name_of
name_of-HasNames names max h e = record {
  known = λ n. entry_in names (if ltb n max then n else max) (ground arith);
  void = λ k. ground arith;
  negative = λ n. refl;
}

-- Each of the four functions has a name for every number from 0 on, calls every number behind its
-- enumeration void, and reads outside of its table for every number below 0.
pub to_name-HasNames :
    HasNames upsf_derived_state_to_name 6
    × HasNames upsf_item_type_to_name 6
    × HasNames upsf_maintenance_req_to_name 3
    × HasNames upsf_mbb_state_to_name 6
unfolding upsf_derived_state_to_name upsf_item_type_to_name upsf_maintenance_req_to_name
    upsf_mbb_state_to_name entry
to_name-HasNames = (
  name_of-HasNames derived_state_names 6 (omega arith) refl,
  name_of-HasNames item_type_names 6 (omega arith) refl,
  name_of-HasNames maintenance_req_names 3 (omega arith) refl,
  name_of-HasNames mbb_state_names 6 (omega arith) refl,
)
