-- ===== src/Client/Storing.antt =====
-- UpsfClient with a server that stores items.
use libupsf.Prelude.{◌≡◌, ◌≢◌, refl, sym, ap, ◌∙◌, true, false, List, [], ◌∷◌, none, some, arith}
use libupsf.Text.{Bytes}
use libupsf.MapField.{same_bytes, same_bytes→eq, same_bytes_refl}
use libupsf.Service.{Item, ListMergeStrategy, Stub, Kind, member, member_or}
use libupsf.Service.Store.{IsStore, selected, put}
use libupsf.Service.Members.{IsMember}
use libupsf.Client.{create, update, read, read_all, seek}

unequal : (s t : Bytes) → s ≢ t → same_bytes s t ≡ false
unequal s t h = ground (arith, same_bytes→eq s t)

module _ {World : Type 0} {stub : Stub World} (store : IsStore stub) {M : Type 0} {kind : Kind M}
    (mem : IsMember kind) where
  -- A read finds the item of its kind that is stored under the name.
  pub read_found :
      (name : Bytes) (target m : M) (w : World)
      → store.at w name ≡ some (kind.wrap m)
      → ((read stub kind name target w).1 ≡ m) × ((read stub kind name target w).2 ≡ true)
  unfolding read seek
  read_found name target m w h =
      let law = store.read_named kind.itemtype name w in
      let items : _ ≡ kind.wrap m ∷ [] = law.0 ∙ rw (h, mem.typed m) refl in
      let same : kind.name m ≡ name = sym (mem.named m) ∙ store.named w name _ h in
      (
        rw (items, seek, mem.wraps m, member_or, mem.wraps m),
        rw (items, seek, mem.wraps m, member_or, mem.wraps m, same, law.1 1, same_bytes_refl name),
      )

  -- A read of a name that is not empty fails where no item of its kind is stored under the name.
  pub read_absent :
      (name : Bytes) (target : M) (w : World)
      → name ≢ []
      → selected kind.itemtype (store.at w name) ≡ []
      → (read stub kind name target w).2 ≡ false
  unfolding read seek
  read_absent name target w named h =
      let law = store.read_named kind.itemtype name w in
      let items : _ ≡ [] = law.0 ∙ h in
      rw (items, seek, law.1 0, mem.unset, member_or, mem.default_name)
        (unequal [] name λ e. named (sym e))

  pub read_keeps :
      (name : Bytes) (target : M) (w : World) (n : Bytes)
      → store.at (read stub kind name target w).0 n ≡ store.at w n
  unfolding read
  read_keeps name target w n = store.read_same _ w n

  pub read_all_keeps :
      (elems : List M) (w : World) (n : Bytes)
      → store.at (read_all stub kind elems w).0 n ≡ store.at w n
  unfolding read_all
  read_all_keeps elems w n = store.read_same _ w n

  -- A create under a free name stores what the server makes of the message, and gives it back.
  pub create_stored :
      (m : M) (w : World)
      → store.at w (kind.name m) ≡ none
      → ((create stub kind m w).1 ≡ member kind (store.accept (kind.wrap m)))
        × ((create stub kind m w).2 ≡ true)
        × ((n : Bytes)
            → store.at (create stub kind m w).0 n
              ≡ put (kind.name m) (some (store.accept (kind.wrap m))) (store.at w) n)
  unfolding create
  create_stored m w h =
      let law = store.create_free (kind.wrap m) w (rw (mem.named m) h) in
      (ap (member kind) law.0, law.1, λ n. law.2 n ∙ rw (mem.named m) refl)

  -- A create under a name that is taken fails and changes nothing.
  pub create_refused :
      (m : M) (old : Item) (w : World)
      → store.at w (kind.name m) ≡ some old
      → ((create stub kind m w).2 ≡ false)
        × ((n : Bytes) → store.at (create stub kind m w).0 n ≡ store.at w n)
  unfolding create
  create_refused m old w h = store.create_taken (kind.wrap m) old w (rw (mem.named m) h)

  pub update_stored :
      (m reply : M) (s : ListMergeStrategy) (old : Item) (w : World)
      → store.at w (kind.name m) ≡ some old
      → ((update stub kind m reply s w).2 ≡ true)
        × ((update stub kind m reply s w).1 ≡ member kind (store.merge s old (kind.wrap m)))
        × ((n : Bytes)
            → store.at (update stub kind m reply s w).0 n
              ≡ put (kind.name m) (some (store.merge s old (kind.wrap m))) (store.at w) n)
  unfolding update
  update_stored m reply s old w h =
      let law = store.update_known s (kind.wrap m) old w (rw (mem.named m) h) in
      (law.1, rw (law.1, law.0) refl, λ n. law.2 n ∙ rw (mem.named m) refl)

  pub update_refused :
      (m reply : M) (s : ListMergeStrategy) (w : World)
      → store.at w (kind.name m) ≡ none
      → ((update stub kind m reply s w).2 ≡ false)
        × ((n : Bytes) → store.at (update stub kind m reply s w).0 n ≡ store.at w n)
  unfolding update
  update_refused m reply s w h = store.update_unknown s (kind.wrap m) w (rw (mem.named m) h)
