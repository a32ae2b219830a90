-- ===== src/Client.antt =====
-- Class UpsfClient of upsf/upsf.hpp over the stub of one channel. The six overloads of each call are
-- copies of one another, so each is an instance of a generic call. The mutex of the stub lets one
-- call run at a time; logging is left out. A call returns the world after it, the message that went
-- out by reference, and its result.
pub mod Overloads
pub mod Reading
pub mod Storing
use libupsf.Prelude.{
  ℕ, zero, suc, ◌+◌, Bool, true, false, not, List, [], ◌∷◌, ◌++◌, Option, none, some, if◌then◌else◌,
}
use libupsf.Text.{Bytes}
use libupsf.MapField.{same_bytes}
use libupsf.Messages.{SessionContext, SessionSpec}
use libupsf.Service.{
  Item, ItemType, ListMergeStrategy, ReadReq, UpdateReq, Stream, Stub, Kind, member, member_or,
  shard_kind, session_context_kind, network_connection_kind, user_plane_kind,
  steering_function_kind, service_gateway_kind,
}

-- The loop over the stream of a read by name: it stops at the first item of the wanted kind. The
-- result is the item that was read last and the number of items read; `item` is the one before.
unfoldable pub seek : {M : Type 0} → Kind M → List Item → Item → ℕ → Item × ℕ
seek kind [] item n = (item, n)
seek kind (next ∷ rest) item n = elim (kind.unwrap next) [
  | some m ↦ (next, suc n)
  | none ↦ seek kind rest next (suc n)
]

-- The loop over the stream of a list: items of other kinds are skipped.
unfoldable pub gather : {M : Type 0} → Kind M → List Item → List M
gather kind [] = []
gather kind (next ∷ rest) =
    let found = gather kind rest in elim (kind.unwrap next) [ some m ↦ m ∷ found | none ↦ found ]

abbrev read_request : ItemType → List Bytes → ReadReq
read_request itemtype name = record {
  itemtype = itemtype ∷ [];
  itemstate = [];
  parent = [];
  name = name;
  watch = false;
}

module _ {World : Type 0} (stub : Stub World) where
  -- The reply is taken over whether or not the call succeeds.
  unfoldable pub create : {M : Type 0} → Kind M → M → World → World × M × Bool
  create kind request w =
      let (w', item, ok) = stub.create_v1 (kind.wrap request) w in (w', member kind item, ok)

  -- The reply is taken over only on success.
  unfoldable pub update :
      {M : Type 0} → Kind M → M → M → ListMergeStrategy → World → World × M × Bool
  update kind request reply options w =
      let (w', item, ok) =
        stub.update_v1 (record { item = kind.wrap request; list_merge_strategy = options }) w in
      (w', (if ok then member kind item else reply), ok)

  unfoldable pub delete : Bytes → World → World × Bytes × Bool
  delete request w = stub.delete_v1 request w

  unfoldable pub lookup : SessionSpec → World → World × SessionContext × Bool
  lookup request w = stub.lookup_v1 request w

  -- ReadV1 by name. The target is written when an item of the kind is found; the result is whether
  -- the last item that was read, seen as one of the kind, has the name.
  unfoldable pub read : {M : Type 0} → Kind M → Bytes → M → World → World × M × Bool
  unfolding seek
  read kind name target w =
      let (w', s) = stub.read_v1 (read_request kind.itemtype (name ∷ [])) w in
      let (item, n) = seek kind s.items Item.unset 0 in
      (
        w',
        member_or kind target item,
        (if s.finish n then same_bytes (kind.name (member kind item)) name else false),
      )

  count_items : List Item → ℕ
  count_items [] = 0
  count_items (i ∷ items) = suc (count_items items)

  -- ReadV1 of all items of a kind, added to those in `elems`.
  unfoldable pub read_all : {M : Type 0} → Kind M → List M → World → World × List M × Bool
  unfolding gather count_items
  read_all kind elems w =
      let (w', s) = stub.read_v1 (read_request kind.itemtype []) w in
      (w', elems ++ gather kind s.items, s.finish (count_items s.items))
