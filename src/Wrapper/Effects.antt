-- ===== src/Wrapper/Effects.antt =====
-- Each call of the C interface with a server that stores items.
use libupsf.Prelude.{
  ℕ, ◌≡◌, ◌≢◌, refl, sym, ap, ◌∙◌, false, [], ◌∷◌, Option, none, some, Option-cases, inl, inr,
}
use libupsf.Text.{Bytes, load}
use libupsf.Service.{Item, ListMergeStrategy, Stub}
use libupsf.Service.Store.{IsStore, selected, has_type}
use libupsf.Service.Members.{IsMember}
use libupsf.Client.{create, update, read, delete}
use libupsf.Client.Storing.{
  read_found, read_absent, read_keeps, create_stored, create_refused, update_stored, update_refused,
}
use libupsf.Slots.{Slots, find}
use libupsf.Wrapper.{Exported, is_empty, upsf_create, upsf_update, upsf_get, upsf_delete}
use libupsf.Wrapper.Runs.{Call, Result, View, perform, kept, meant}

-- A name that is not empty.
given : (s : Bytes) → s ≢ [] → is_empty s ≡ false
unfolding is_empty
given [] h = absurd (h refl)
given (c ∷ s) h = refl

module _ {World : Type 0} (network : Bytes → Stub World) {C M : Type 0} (x : Exported C M)
    (mem : IsMember x.kind) (slots : Slots) {addr : Bytes} (store : IsStore (network addr)) where
  -- The call returns what it is meant to return, and leaves the items that it is meant to leave.
  abbrev pub Refines : Option (World × Result C) → View × Result C → Type 0
  Refines done (v, r) = (w' : World) × (done ≡ some (w', r)) × (store.at w' ≡ v)

  module _ (tid : ℕ) (c : C) (m : M) (w : World) (has_slot : find tid slots ≡ some addr)
      (reads : x.to_proto c x.kind.default ≡ some m) where
    pub create_free :
        store.at w (x.kind.name m) ≡ none
        → Refines
            (perform network x slots (Call.create tid c m) w)
            (meant x store.accept store.merge (Call.create tid c m) (store.at w))
    unfolding perform upsf_create
    create_free free =
        let (reply, ok, views) = create_stored store mem m w free in
        (
          (create (network addr) x.kind m w).0,
          rw (perform, upsf_create, has_slot, meant, reads, ok, reply, free) refl,
          rw (meant, free) (λ i n. views n i),
        )

    pub create_taken :
        (old : Item)
        → store.at w (x.kind.name m) ≡ some old
        → Refines
            (perform network x slots (Call.create tid c m) w)
            (meant x store.accept store.merge (Call.create tid c m) (store.at w))
    unfolding perform upsf_create
    create_taken old taken =
        let (ok, views) = create_refused store mem m old w taken in
        (
          (create (network addr) x.kind m w).0,
          rw (perform, upsf_create, has_slot, meant, reads, ok, taken) refl,
          rw (meant, taken) (λ i n. views n i),
        )

    pub update_known :
        (old : Item)
        → store.at w (x.kind.name m) ≡ some old
        → Refines
            (perform network x slots (Call.update tid c m) w)
            (meant x store.accept store.merge (Call.update tid c m) (store.at w))
    unfolding perform upsf_update
    update_known old taken =
        let (ok, reply, views) =
          update_stored store mem m x.kind.default ListMergeStrategy.union old w taken in
        (
          (update (network addr) x.kind m x.kind.default ListMergeStrategy.union w).0,
          rw (perform, upsf_update, has_slot, meant, reads, ok, reply, taken) refl,
          rw (meant, taken) (λ i n. views n i),
        )

    pub update_unknown :
        store.at w (x.kind.name m) ≡ none
        → Refines
            (perform network x slots (Call.update tid c m) w)
            (meant x store.accept store.merge (Call.update tid c m) (store.at w))
    unfolding perform upsf_update
    update_unknown free =
        let (ok, views) =
          update_refused store mem m x.kind.default ListMergeStrategy.union w free in
        (
          (update (network addr) x.kind m x.kind.default ListMergeStrategy.union w).0,
          rw (perform, upsf_update, has_slot, meant, reads, ok, free) refl,
          rw (meant, free) (λ i n. views n i),
        )

  module _ (tid : ℕ) (c : C) (name : Bytes) (w : World) (has_slot : find tid slots ≡ some addr)
      (named : load (x.name c) ≡ some name) where
    pub get_absent :
        name ≢ []
        → store.at w name ≡ none
        → Refines
            (perform network x slots (Call.get tid c name) w)
            (meant x store.accept store.merge (Call.get tid c name) (store.at w))
    unfolding perform upsf_get
    get_absent not_empty free =
        let ok =
          read_absent store mem name x.kind.default w not_empty
            (ap (selected x.kind.itemtype) free) in
        (
          (read (network addr) x.kind name x.kind.default w).0,
          rw (perform, upsf_get, has_slot, meant, named, ok, free) refl,
          rw (meant, free) (λ i n. read_keeps store mem name x.kind.default w n i),
        )

    pub get_other :
        name ≢ []
        → (i : Item) → store.at w name ≡ some i
        → has_type x.kind.itemtype i ≡ false
        → x.kind.unwrap i ≡ none
        → Refines
            (perform network x slots (Call.get tid c name) w)
            (meant x store.accept store.merge (Call.get tid c name) (store.at w))
    unfolding perform upsf_get
    get_other not_empty i taken other unwraps =
        let nothing : selected x.kind.itemtype (some i) ≡ [] = rw other refl in
        let ok =
          read_absent store mem name x.kind.default w not_empty
            (ap (selected x.kind.itemtype) taken ∙ nothing) in
        (
          (read (network addr) x.kind name x.kind.default w).0,
          rw (perform, upsf_get, has_slot, meant, named, ok, taken, kept, unwraps) refl,
          rw (meant, taken) (λ j n. read_keeps store mem name x.kind.default w n j),
        )

    pub get_known :
        name ≢ []
        → (m' : M) → store.at w name ≡ some (x.kind.wrap m')
        → Refines
            (perform network x slots (Call.get tid c name) w)
            (meant x store.accept store.merge (Call.get tid c name) (store.at w))
    unfolding perform upsf_get
    get_known not_empty m' taken =
        let (reply, ok) = read_found store mem name x.kind.default m' w taken in
        let found : x.kind.name m' ≡ name = sym (mem.named m') ∙ store.named w name _ taken in
        (
          (read (network addr) x.kind name x.kind.default w).0,
          rw
              (
                perform,
                upsf_get,
                has_slot,
                meant,
                named,
                ok,
                reply,
                found,
                given name not_empty,
                taken,
                kept,
                mem.wraps m',
              )
              refl,
          rw (meant, taken) (λ j n. read_keeps store mem name x.kind.default w n j),
        )

    pub delete-Refines :
        Refines
          (perform network x slots (Call.delete tid c name) w)
          (meant x store.accept store.merge (Call.delete tid c name) (store.at w))
    unfolding perform upsf_delete delete
    delete-Refines = elim (Option-cases (store.at w name)) [
      | inl free ↦ (
        (delete (network addr) name w).0,
        rw (perform, upsf_delete, has_slot, meant, named, store.delete_unknown name w free, free)
            refl,
        λ j n. store.delete_any name w n j,
      )
      | inr (i, taken) ↦ (
        (delete (network addr) name w).0,
        rw (perform, upsf_delete, has_slot, meant, named, store.delete_known name i w taken, taken)
            refl,
        λ j n. store.delete_any name w n j,
      )
    ]
