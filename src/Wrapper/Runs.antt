-- ===== src/Wrapper/Runs.antt =====
-- Sequences of calls of the C interface by any threads, and what they are meant to do to the items of a
-- server that stores them. The calls are those for one kind of item, each with its buffer.
use libupsf.Prelude.{ℕ, List, [], ◌∷◌, Option, none, some, ℤ, pos, negsuc, ◌>>=◌}
use libupsf.Text.{Bytes}
use libupsf.Service.{Item, ListMergeStrategy, Stub, member}
use libupsf.Service.Store.{put}
use libupsf.Slots.{Slots}
use libupsf.Wrapper.{
  Exported, Returned, null, filled, upsf_create, upsf_update, upsf_get, upsf_delete,
}

-- A call of a thread with its buffer. A create and an update also name the message that the buffer
-- stands for, the other two the name in the buffer.
pub data Call (C M : Type 0) : Type 0 where
  create : ℕ → C → M → Call C M
  update : ℕ → C → M → Call C M
  get : ℕ → C → Bytes → Call C M
  delete : ℕ → C → Bytes → Call C M

-- A delete returns 0 or -1, the other calls a pointer.
pub data Result (C : Type 0) : Type 0 where
  pointer : Returned C → Result C
  code : ℤ → Result C

module _ {World : Type 0} (network : Bytes → Stub World) {C M : Type 0} (x : Exported C M)
    (slots : Slots) where
  unfoldable pub perform : Call C M → World → Option (World × Result C)
  perform (Call.create tid c m) w = do
    r ← upsf_create network x slots tid (some c) w
    some (r.0, Result.pointer r.1)
  perform (Call.update tid c m) w = do
    r ← upsf_update network x slots tid (some c) w
    some (r.0, Result.pointer r.1)
  perform (Call.get tid c name) w = do
    r ← upsf_get network x slots tid (some c) w
    some (r.0, Result.pointer r.1)
  perform (Call.delete tid c name) w = do
    r ← upsf_delete network x slots tid (some c) w
    some (r.0, Result.code r.1)

  unfoldable pub perform_all : List (Call C M) → World → Option (World × List (Result C))
  perform_all [] w = some (w, [])
  perform_all (c ∷ calls) w = do r ← perform c w; s ← perform_all calls r.0; some (s.0, r.1 ∷ s.1)

abbrev pub View : Type 0
View = Bytes → Option Item

-- The same calls on the items alone. `accept` is what the server makes of an item that is created, and
-- `merge` of one by an update.
module _ {C M : Type 0} (x : Exported C M) (accept : Item → Item)
    (merge : ListMergeStrategy → Item → Item → Item) where
  abbrev pub kept : Item → Returned C
  kept i = elim (x.kind.unwrap i) [ none ↦ null | some m ↦ filled (x.to_c m) ]

  abbrev pub merged : M → Item → Item
  merged m old = merge ListMergeStrategy.union old (x.kind.wrap m)

  abbrev pub meant : Call C M → View → View × Result C
  meant (Call.create tid c m) v = elim (v (x.kind.name m)) [
    | none ↦ (
      put (x.kind.name m) (some (accept (x.kind.wrap m))) v,
      Result.pointer (filled (x.to_c (member x.kind (accept (x.kind.wrap m))))),
    )
    | some old ↦ (v, Result.pointer null)
  ]
  meant (Call.update tid c m) v = elim (v (x.kind.name m)) [
    | none ↦ (v, Result.pointer null)
    | some old ↦ (
      put (x.kind.name m) (some (merged m old)) v,
      Result.pointer (filled (x.to_c (member x.kind (merged m old)))),
    )
  ]
  meant (Call.get tid c name) v = elim (v name) [
    | none ↦ (v, Result.pointer null)
    | some i ↦ (v, Result.pointer (kept i))
  ]
  meant (Call.delete tid c name) v =
      (put name none v, Result.code (elim (v name) [ none ↦ negsuc 0 | some i ↦ pos 0 ]))

  abbrev pub meant_all : List (Call C M) → View → View × List (Result C)
  meant_all [] v = (v, [])
  meant_all (c ∷ calls) v = let r = meant c v in let s = meant_all calls r.0 in (s.0, r.1 ∷ s.1)
