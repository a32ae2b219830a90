-- ===== src/Subscriber.antt =====
-- Class UpsfSubscriber and the read that serves it in upsf/upsf.hpp, and UpsfSubscriberWrapper with
-- upsf_subscribe in upsf/upsf_c_wrapper.cpp. What the reader of the stream yields is a parameter: a
-- list of rounds, each with the items up to the next `Finish` and its status.
pub mod Serving
pub mod Objects
use libupsf.Prelude.{
  ℕ, zero, suc, ◌+◌, Bool, true, false, List, [], ◌∷◌, ◌++◌, Option, none, some, ℤ, pos, negsuc,
  ◌>>=◌, if◌then◌else◌,
}
use libupsf.Text.{Bytes}
use libupsf.Messages.{
  Shard, SessionContext, NetworkConnection, ServiceGatewayUserPlane, TrafficSteeringFunction,
  ServiceGateway,
}
use libupsf.Structs.{
  UpsfServiceGateway, UpsfUserPlane, UpsfSteeringFunction, UpsfNetworkConnection, UpsfShard,
  UpsfSessionContext,
}
use libupsf.Service.{Item, ItemType, ReadReq}
use libupsf.Mapping.Gateway.{service_gateway_to_c, user_plane_to_c, steering_function_to_c}
use libupsf.Mapping.Connection.{network_connection_to_c}
use libupsf.Mapping.Shard.{shard_to_c}
use libupsf.Mapping.Session.{session_context_to_c}

pub record Subscriber : Type 0 where
  pub itemtypes : List ItemType
  pub derivedstates : List ℤ
  pub parents : List Bytes
  pub names : List Bytes
  pub watch : Bool

-- The constructor that UpsfSubscriberWrapper uses: all kinds of items, in the states unknown, inactive,
-- active and updating.
unfoldable pub all_items : Bool → Subscriber
all_items watch = record {
  itemtypes =
      ItemType.service_gateway ∷ ItemType.service_gateway_user_plane
      ∷ ItemType.traffic_steering_function ∷ ItemType.network_connection ∷ ItemType.shard
      ∷ ItemType.session_context ∷ [];
  derivedstates = pos 0 ∷ pos 1 ∷ pos 2 ∷ pos 3 ∷ [];
  parents = [];
  names = [];
  watch = watch;
}

-- field.mutable_x(index)->set_value(v), which is undefined for an index out of range.
unfoldable pub set_value : ℕ → Bytes → List Bytes → Option (List Bytes)
set_value index v [] = none
set_value zero v (x ∷ field) = some (v ∷ field)
set_value (suc index) v (x ∷ field) = do rest ← set_value index v field; some (x ∷ rest)

-- for (it : values) field.mutable_x(index++)->set_value(it)
unfoldable pub set_values : List Bytes → ℕ → List Bytes → Option (List Bytes)
unfolding set_value
set_values [] index field = some field
set_values (v ∷ values) index field = do
  field' ← set_value index v field
  set_values values (suc index) field'

unfoldable pub subscribe_request : Subscriber → Option ReadReq
unfolding set_values
subscribe_request s = do
  parent ← set_values s.parents 0 []
  name ← set_values s.names 0 []
  some (record {
    itemtype = s.itemtypes;
    itemstate = s.derivedstates;
    parent = parent;
    name = name;
    watch = s.watch;
  })

-- The inner loop: each item is handed to the notify function of its kind, in the order of the stream;
-- an item without a member to none.
unfoldable pub notify_all : {E : Type 0} → (Item → List E) → List Item → List E
notify_all notify [] = []
notify_all notify (item ∷ items) = notify item ++ notify_all notify items

-- The outer loop: it ends at a bad status, or after one round without `watch`. The result is what was
-- notified and what the call returned; `none` while the rounds so far have not ended it.
unfoldable pub serve :
    {E : Type 0} → Bool → (Item → List E) → List (List Item × Bool) → List E × Option Bool
unfolding notify_all
serve watch notify [] = ([], none)
serve watch notify ((items, ok) ∷ rounds) =
    let rest = serve watch notify rounds in
    let here = notify_all notify items in
    if ok
    then (if watch then (here ++ rest.0, rest.1) else (here, some true))
    else (here, some false)

-- Which callbacks are given, and what one is called with.
pub record Callbacks : Type 0 where
  pub shard_cb : Bool
  pub session_context_cb : Bool
  pub network_connection_cb : Bool
  pub service_gateway_user_plane_cb : Bool
  pub traffic_steering_function_cb : Bool
  pub service_gateway_cb : Bool

pub data Called : Type 0 where
  shard : UpsfShard → Called
  session_context : UpsfSessionContext → Called
  network_connection : UpsfNetworkConnection → Called
  service_gateway_user_plane : UpsfUserPlane → Called
  traffic_steering_function : UpsfSteeringFunction → Called
  service_gateway : UpsfServiceGateway → Called

-- UpsfSubscriberWrapper::notify
unfoldable pub notify : Callbacks → Item → List Called
notify cbs Item.unset = []
notify cbs (Item.shard m) = if cbs.shard_cb then Called.shard (shard_to_c m) ∷ [] else []
notify cbs (Item.session_context m) =
    if cbs.session_context_cb then Called.session_context (session_context_to_c m) ∷ [] else []
notify cbs (Item.network_connection m) =
    if cbs.network_connection_cb
    then Called.network_connection (network_connection_to_c m) ∷ []
    else []
notify cbs (Item.service_gateway_user_plane m) =
    if cbs.service_gateway_user_plane_cb
    then Called.service_gateway_user_plane (user_plane_to_c m) ∷ []
    else []
notify cbs (Item.traffic_steering_function m) =
    if cbs.traffic_steering_function_cb
    then Called.traffic_steering_function (steering_function_to_c m) ∷ []
    else []
notify cbs (Item.service_gateway m) =
    if cbs.service_gateway_cb then Called.service_gateway (service_gateway_to_c m) ∷ [] else []

abbrev pub exit_code : Option Bool → Option ℤ
exit_code none = none
exit_code (some true) = some (pos 0)
exit_code (some false) = some (negsuc 0)

-- The request is that of `all_items true`.
unfoldable pub upsf_subscribe : Callbacks → List (List Item × Bool) → List Called × Option ℤ
unfolding serve all_items
upsf_subscribe cbs rounds =
    let r = serve (all_items true).watch (notify cbs) rounds in (r.0, exit_code r.1)
