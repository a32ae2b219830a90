-- ===== src/Wrapper/Keeping.antt =====
-- The C interface with a server that stores items.
use libupsf.Prelude.{ℕ, ◌≡◌, ◌≢◌, refl, ap, ◌∙◌, List, [], ◌∷◌, some, All, Option-cases, inl, inr}
use libupsf.Text.{Bytes, load}
use libupsf.Service.{Stub}
use libupsf.Service.Store.{IsStore}
use libupsf.Service.Members.{IsMember}
use libupsf.Slots.{Slots, find}
use libupsf.Wrapper.{Exported}
use libupsf.Wrapper.Runs.{Call, perform, perform_all, meant, meant_all}
use libupsf.Wrapper.Effects.{
  Refines, create_free, create_taken, update_known, update_unknown, get_absent, get_other,
  get_known, delete-Refines,
}

module _ {World : Type 0} (network : Bytes → Stub World) {C M : Type 0} (x : Exported C M)
    (mem : IsMember x.kind) (slots : Slots) {addr : Bytes} (store : IsStore (network addr)) where
  -- The thread has a slot at the server's address, and its buffer reads as the call says; a get has a
  -- name that is not empty.
  abbrev pub IsReady : Call C M → Type 0
  IsReady (Call.create tid c m) =
      (find tid slots ≡ some addr) × (x.to_proto c x.kind.default ≡ some m)
  IsReady (Call.update tid c m) =
      (find tid slots ≡ some addr) × (x.to_proto c x.kind.default ≡ some m)
  IsReady (Call.get tid c name) =
      (find tid slots ≡ some addr) × (load (x.name c) ≡ some name) × (name ≢ [])
  IsReady (Call.delete tid c name) = (find tid slots ≡ some addr) × (load (x.name c) ≡ some name)

  get-Refines :
      (tid : ℕ) (c : C) (name : Bytes) (w : World)
      → IsReady (Call.get tid c name)
      → Refines network x mem slots store
          (perform network x slots (Call.get tid c name) w)
          (meant x store.accept store.merge (Call.get tid c name) (store.at w))
  get-Refines tid c name w (has_slot, named, given) = elim (Option-cases (store.at w name)) [
    | inl free ↦ get_absent network x mem slots store tid c name w has_slot named given free
    | inr (i, taken) ↦ elim (mem.cases i) [
      | inl (m', same) ↦
          get_known network x mem slots store tid c name w has_slot named given m'
            (taken ∙ ap some same)
      | inr (other, unwraps) ↦
          get_other network x mem slots store tid c name w has_slot named given i taken other
            unwraps
    ]
  ]

  pub perform-Refines :
      (c : Call C M) (w : World)
      → IsReady c
      → Refines network x mem slots store
          (perform network x slots c w)
          (meant x store.accept store.merge c (store.at w))
  perform-Refines (Call.create tid c m) w (has_slot, reads) =
      elim (Option-cases (store.at w (x.kind.name m))) [
        | inl free ↦ create_free network x mem slots store tid c m w has_slot reads free
        | inr (old, taken) ↦
            create_taken network x mem slots store tid c m w has_slot reads old taken
      ]
  perform-Refines (Call.update tid c m) w (has_slot, reads) =
      elim (Option-cases (store.at w (x.kind.name m))) [
        | inl free ↦ update_unknown network x mem slots store tid c m w has_slot reads free
        | inr (old, taken) ↦
            update_known network x mem slots store tid c m w has_slot reads old taken
      ]
  perform-Refines (Call.get tid c name) w ready = get-Refines tid c name w ready
  perform-Refines (Call.delete tid c name) w (has_slot, named) =
      delete-Refines network x mem slots store tid c name w has_slot named

  -- Any sequence of create, update, get and delete calls by any threads returns what it is meant
  -- to and leaves the items that it is meant to, if each calling thread has a slot at the address
  -- of a server that stores items, each buffer of a create or an update is mapped to a message,
  -- each name in a buffer of a get or a delete is terminated, that of a get is not empty, and the
  -- items of the kind are told from those of other kinds.
  pub perform_all_refines :
      (calls : List (Call C M)) (w : World)
      → All IsReady calls
      → (w' : World) × (perform_all network x slots calls w
          ≡ some (w', (meant_all x store.accept store.merge calls (store.at w)).1))
        × (store.at w' ≡ (meant_all x store.accept store.merge calls (store.at w)).0)
  unfolding perform_all
  perform_all_refines [] w h = (w, refl, refl)
  perform_all_refines (c ∷ calls) w h =
      let (w1, first, there) = perform-Refines c w h.0 in
      let (w2, rest, last) = perform_all_refines calls w1 h.1 in
      (w2, rw (first, rest, there) refl, last ∙ rw there refl)
