-- ===== src/Names.antt =====
-- upsf_..._to_name of upsf/upsf_c_wrapper.cpp with their tables. A number below 0 reads in front of
-- the table, which is undefined.
pub mod Total
use libupsf.Prelude.{
  ℕ, zero, suc, List, [], ◌∷◌, Option, none, some, ℤ, pos, negsuc, ltb, if◌then◌else◌,
}
use Prim.Native.String.{String}

abbrev pub derived_state_names : List String
derived_state_names =
    "unknown" ∷ "inactive" ∷ "active" ∷ "updating" ∷ "deleting" ∷ "deleted" ∷ "void" ∷ []

abbrev pub item_type_names : List String
item_type_names =
    "service-gateway" ∷ "service-gateway-user-plane" ∷ "traffic-steering-funtion"
    ∷ "network-connection" ∷ "shard" ∷ "session-context" ∷ "void" ∷ []

abbrev pub maintenance_req_names : List String
maintenance_req_names = "none" ∷ "drain" ∷ "drain-and-delete" ∷ "void" ∷ []

abbrev pub mbb_state_names : List String
mbb_state_names =
    "non-mbb-move-required" ∷ "userplane-mbb-initiatiation-required"
    ∷ "upstream-switchover-required" ∷ "downstream-switchover-required"
    ∷ "upstream-finalization-required" ∷ "complete" ∷ "void" ∷ []

-- names[i]
unfoldable pub entry : List String → ℕ → Option String
entry [] i = none
entry (s ∷ names) zero = some s
entry (s ∷ names) (suc i) = entry names i

-- n = n < max ? n : max; return names[n];
unfoldable pub name_of : List String → ℕ → ℤ → Option String
unfolding entry
name_of names max (pos n) = entry names (if ltb n max then n else max)
name_of names max (negsuc n) = none

unfoldable pub upsf_derived_state_to_name : ℤ → Option String
unfolding name_of
upsf_derived_state_to_name = name_of derived_state_names 6

unfoldable pub upsf_item_type_to_name : ℤ → Option String
unfolding name_of
upsf_item_type_to_name = name_of item_type_names 6

unfoldable pub upsf_maintenance_req_to_name : ℤ → Option String
unfolding name_of
upsf_maintenance_req_to_name = name_of maintenance_req_names 3

unfoldable pub upsf_mbb_state_to_name : ℤ → Option String
unfolding name_of
upsf_mbb_state_to_name = name_of mbb_state_names 6
