-- ===== src/Printing/Common.antt =====
-- MetaDataStream, MaintenanceStream and SessionFilterStream, and the loops that print arrays.
use Prim.Native.Char.{code}
use Prim.Native.String.{String}
use libupsf.Prelude.{ℕ, suc, List, [], ◌∷◌, ◌++◌, Option, some, pos, ◌>>=◌}
use libupsf.Text.{Bytes, until_nul}
use libupsf.Messages.{Timestamp, MetaData, Maintenance, SessionFilter}
use libupsf.Names.{upsf_derived_state_to_name, upsf_maintenance_req_to_name}
use libupsf.Slots.{show_int}

-- The bytes of a literal, which is ASCII.
abbrev pub codes : String → Bytes
codes String.[] = []
codes (String.◌∷◌ c s) = code c ∷ codes s

-- os << a << b << ...
unfoldable pub texts : List Bytes → Bytes
texts [] = []
texts (s ∷ rest) = s ++ texts rest

-- for (i = 0; i < size; i++) os << "[" << i << "]" << x(i) << ", "
unfoldable pub print_indexed : {A : Type 0} → (A → Bytes) → ℕ → List A → Bytes
unfolding texts
print_indexed print i [] = []
print_indexed print i (x ∷ xs) =
    texts (codes "[" ∷ show_int (pos i) ∷ codes "]" ∷ print x ∷ codes ", " ∷ [])
    ++ print_indexed print (suc i) xs

-- for (it : m) os << it.first.c_str() << ":" << it.second << ", "
unfoldable pub print_entries : {V : Type 0} → (V → Bytes) → List (Bytes × V) → Bytes
unfolding texts until_nul
print_entries print [] = []
print_entries print ((k, v) ∷ m) =
    texts (until_nul k ∷ codes ":" ∷ print v ∷ codes ", " ∷ []) ++ print_entries print m

unfoldable pub print_maintenance : Maintenance → Option Bytes
unfolding texts
print_maintenance m = do
  req ← upsf_maintenance_req_to_name m.maintenance_req
  some (texts (codes "Maintenance(" ∷ codes "req=" ∷ codes req ∷ codes ")" ∷ []))

unfoldable pub print_session_filter : SessionFilter → Bytes
unfolding texts until_nul
print_session_filter m = texts (
    codes "SessionFilter("
    ∷ codes "smac="
    ∷ until_nul m.source_mac_address
    ∷ codes ", "
    ∷ codes "svlan="
    ∷ show_int m.svlan
    ∷ codes ", "
    ∷ codes "cvlan="
    ∷ show_int m.cvlan
    ∷ codes ")"
    ∷ [])

-- `time` is TimeUtil::ToString of protobuf.
module _ (time : Timestamp → Bytes) where
  unfoldable pub print_metadata : MetaData → Option Bytes
  unfolding texts until_nul
  print_metadata m = do
    state ← upsf_derived_state_to_name m.derived_state
    some (
        texts (
          codes "MetaData("
          ∷ codes "desc="
          ∷ until_nul m.description
          ∷ codes ", "
          ∷ codes "DerivedState="
          ∷ codes state
          ∷ codes ", "
          ∷ codes "created="
          ∷ time m.created
          ∷ codes ", "
          ∷ codes "last_updated="
          ∷ time m.last_updated
          ∷ codes ")"
          ∷ []))
