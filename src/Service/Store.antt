-- ===== src/Service/Store.antt =====
-- What the service of upsf/protos/wt474_upsf_service/v1/service_v1.proto promises of a server that
-- stores items: one item for each name, since DeleteV1 is given nothing but a name.
use libupsf.Prelude.{
  ℕ, ◌≡◌, All, Bool, true, false, List, [], ◌∷◌, Option, none, some, if◌then◌else◌,
}
use libupsf.Text.{Bytes}
use libupsf.MapField.{same_bytes}
use libupsf.Service.{Item, ItemType, ListMergeStrategy, ReadReq, Stub}

unfoldable pub item_name : Item → Bytes
item_name Item.unset = []
item_name (Item.shard m) = m.name
item_name (Item.session_context m) = m.name
item_name (Item.network_connection m) = m.name
item_name (Item.service_gateway_user_plane m) = m.name
item_name (Item.traffic_steering_function m) = m.name
item_name (Item.service_gateway m) = m.name

unfoldable pub has_type : ItemType → Item → Bool
has_type ItemType.shard (Item.shard m) = true
has_type ItemType.session_context (Item.session_context m) = true
has_type ItemType.network_connection (Item.network_connection m) = true
has_type ItemType.service_gateway_user_plane (Item.service_gateway_user_plane m) = true
has_type ItemType.traffic_steering_function (Item.traffic_steering_function m) = true
has_type ItemType.service_gateway (Item.service_gateway m) = true
has_type _ _ = false

-- The stored item, if it has the type that is asked for.
abbrev pub selected : ItemType → Option Item → List Item
selected t none = []
selected t (some i) = if has_type t i then i ∷ [] else []

-- The store with one name set, or removed.
abbrev pub put : Bytes → Option Item → (Bytes → Option Item) → Bytes → Option Item
put name item view n = if same_bytes name n then item else view n

-- A server that stores items. `at` is the item that it has under a name, `accept` is what it makes of
-- an item that is created, and `merge` what becomes of an item by an update; it answers with the item
-- that it stores. It refuses to create an item under a name that is taken, and to update or delete one
-- that it does not have. How it accepts and merges is left open, but that an item is stored
-- under its name.
pub record IsStore {World : Type 0} (stub : Stub World) : Type 0 where
  pub at : World → Bytes → Option Item
  pub accept : Item → Item
  pub merge : ListMergeStrategy → Item → Item → Item
  pub named : (w : World) (n : Bytes) (i : Item) → at w n ≡ some i → item_name i ≡ n
  pub create_free :
      (i : Item) (w : World)
      → at w (item_name i) ≡ none
      → let r = stub.create_v1 i w in
        (r.1 ≡ accept i)
        × (r.2 ≡ true)
        × ((n : Bytes) → at r.0 n ≡ put (item_name i) (some (accept i)) (at w) n)
  pub create_taken :
      (i old : Item) (w : World)
      → at w (item_name i) ≡ some old
      → let r = stub.create_v1 i w in (r.2 ≡ false) × ((n : Bytes) → at r.0 n ≡ at w n)
  pub update_known :
      (s : ListMergeStrategy) (i old : Item) (w : World)
      → at w (item_name i) ≡ some old
      → let r = stub.update_v1 (record { item = i; list_merge_strategy = s }) w in
        (r.1 ≡ merge s old i)
        × (r.2 ≡ true)
        × ((n : Bytes) → at r.0 n ≡ put (item_name i) (some (merge s old i)) (at w) n)
  pub update_unknown :
      (s : ListMergeStrategy) (i : Item) (w : World)
      → at w (item_name i) ≡ none
      → let r = stub.update_v1 (record { item = i; list_merge_strategy = s }) w in
        (r.2 ≡ false) × ((n : Bytes) → at r.0 n ≡ at w n)
  pub delete_any :
      (name : Bytes) (w : World)
      → (n : Bytes) → at (stub.delete_v1 name w).0 n ≡ put name none (at w) n
  pub delete_known :
      (name : Bytes) (i : Item) (w : World) → at w name ≡ some i → (stub.delete_v1 name w).2 ≡ true
  pub delete_unknown :
      (name : Bytes) (w : World) → at w name ≡ none → (stub.delete_v1 name w).2 ≡ false
  pub read_same : (req : ReadReq) (w : World) (n : Bytes) → at (stub.read_v1 req w).0 n ≡ at w n
  -- What is streamed is stored.
  pub read_stored :
      (req : ReadReq) (w : World)
      → All (λ i. (n : Bytes) × (at w n ≡ some i)) (stub.read_v1 req w).1.items
  pub read_named :
      (t : ItemType) (name : Bytes) (w : World)
      → let s =
          (stub.read_v1
            (record {
              itemtype = t ∷ [];
              itemstate = [];
              parent = [];
              name = name ∷ [];
              watch = false;
            })
            w).1 in
        (s.items ≡ selected t (at w name)) × ((k : ℕ) → s.finish k ≡ true)
