-- ===== src/Wrapper.antt =====
-- The C interface of upsf/upsf_c_wrapper.cpp: per kind of item, create, update, get, delete and list,
-- and the lookup of sessions. The functions for the six kinds are copies of one another, so each is an
-- instance of a generic one. A call has no result where it reads a structure that is not readable.
pub mod Exports
pub mod Calls
pub mod Lists
pub mod Safety
pub mod Storing
pub mod Runs
pub mod Effects
pub mod Keeping
use libupsf.Prelude.{
  ℕ, zero, suc, ◌%◌, ◌-◌, Bool, true, false, List, [], ◌∷◌, Option, none, some, ℤ, pos, negsuc,
  length, replicate, ltb, ◌>>=◌, if◌then◌else◌, min,
}
use libupsf.Text.{Bytes, UpsfString, load}
use libupsf.Arrays.{fill}
use libupsf.Messages.{SessionContext, SessionSpec, default_session_spec, default_session_context}
use libupsf.Structs.{UpsfSessionContext}
use libupsf.Service.{Stub, Kind, ListMergeStrategy}
use libupsf.Mapping.Session.{session_spec_to_proto, session_context_to_c}
use libupsf.Client.{create, update, read, read_all, delete, lookup}
use libupsf.Slots.{Slots, find}

-- A kind of item with its structure and the two maps.
pub record Exported (C M : Type 0) : Type 0 where
  pub kind : Kind M
  pub to_c : M → C
  pub to_proto : C → M → Option M
  pub zero : C
  pub name : C → UpsfString

-- What a call with a buffer returns: a null pointer, with the buffer as it was, or the buffer with
-- new contents.
pub data Returned (C : Type 0) : Type 0 where
  null : Returned C
  filled : C → Returned C

unfoldable pub is_empty : Bytes → Bool
is_empty [] = true
is_empty (c ∷ s) = false

-- A size as an int of 32 bits.
unfoldable pub to_int : ℕ → ℤ
to_int n = let r = n % 4294967296 in if ltb r 2147483648 then pos r else negsuc (4294967295 - r)

-- How often a loop from 0 up to the number runs.
abbrev pub iterations : ℤ → ℕ
iterations (pos n) = n
iterations (negsuc n) = 0

-- The network gives the stub of the channel to an address.
module _ {World : Type 0} (network : Bytes → Stub World) where
  -- A null pointer for the buffer is `none`.
  unfoldable pub upsf_create :
      {C M : Type 0} → Exported C M → Slots → ℕ → Option C → World → Option (World × Returned C)
  upsf_create e slots tid none w = some (w, null)
  upsf_create e slots tid (some buffer) w = elim (find tid slots) [
    | none ↦ some (w, null)
    | some addr ↦ do
      request ← e.to_proto buffer e.kind.default
      let result = create (network addr) e.kind request w
      some (result.0, (if result.2 then filled (e.to_c result.1) else null))
  ]

  unfoldable pub upsf_update :
      {C M : Type 0} → Exported C M → Slots → ℕ → Option C → World → Option (World × Returned C)
  upsf_update e slots tid none w = some (w, null)
  upsf_update e slots tid (some buffer) w = elim (find tid slots) [
    | none ↦ some (w, null)
    | some addr ↦ do
      request ← e.to_proto buffer e.kind.default
      let result = update (network addr) e.kind request e.kind.default ListMergeStrategy.union w
      some (result.0, (if result.2 then filled (e.to_c result.1) else null))
  ]

  -- A reply without a name counts as not found.
  unfoldable pub upsf_get :
      {C M : Type 0} → Exported C M → Slots → ℕ → Option C → World → Option (World × Returned C)
  upsf_get e slots tid none w = some (w, null)
  upsf_get e slots tid (some buffer) w = elim (find tid slots) [
    | none ↦ some (w, null)
    | some addr ↦ do
      name ← load (e.name buffer)
      let result = read (network addr) e.kind name e.kind.default w
      some (
        result.0,
        (if result.2
            then (if is_empty (e.kind.name result.1) then null else filled (e.to_c result.1))
            else null),
      )
  ]

  unfoldable pub upsf_delete :
      {C M : Type 0} → Exported C M → Slots → ℕ → Option C → World → Option (World × ℤ)
  upsf_delete e slots tid none w = some (w, negsuc 0)
  upsf_delete e slots tid (some buffer) w = elim (find tid slots) [
    | none ↦ some (w, negsuc 0)
    | some addr ↦ do
      name ← load (e.name buffer)
      let result = delete (network addr) name w
      some (result.0, (if result.2 then pos 0 else negsuc 0))
  ]

  -- The buffer has n_elems elements. The result is the number of items read, which may be larger; as
  -- an int it wraps.
  unfoldable pub upsf_list :
      {C M : Type 0}
      → Exported C M
      → Slots
      → ℕ
      → Option (List C)
      → World
      → World × Option (List C) × ℤ
  upsf_list e slots tid none w = (w, none, negsuc 0)
  upsf_list e slots tid (some elems) w = elim (find tid slots) [
    | none ↦ (w, some elems, negsuc 0)
    | some addr ↦
        let (w', items, ok) = read_all (network addr) e.kind [] w in
        let cleared = replicate (length elems) e.zero in
        let max_elems = to_int (min (length items) (length elems)) in
        if ok
        then (
          w',
          some (fill (λ m c. e.to_c m) (iterations max_elems) items cleared),
          to_int (length items),
        )
        else (w', some elems, negsuc 0)
  ]

  unfoldable pub upsf_lookup :
      Slots → ℕ → Option UpsfSessionContext → World → Option (World × Returned UpsfSessionContext)
  upsf_lookup slots tid none w = some (w, null)
  upsf_lookup slots tid (some buffer) w = elim (find tid slots) [
    | none ↦ some (w, null)
    | some addr ↦ do
      request ← session_spec_to_proto buffer.spec default_session_spec
      let (w', reply, ok) = lookup (network addr) request w
      some (
        w',
        (if ok
            then (if is_empty reply.name then null else filled (session_context_to_c reply))
            else null),
      )
  ]
