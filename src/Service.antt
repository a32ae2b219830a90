-- ===== src/Service.antt =====
-- The gRPC service of upsf/protos/wt474_upsf_service/v1/service_v1.proto and the messages Item,
-- ReadReq and UpdateReq. The server behind it and the gRPC library are parameters.
pub mod Store
pub mod Members
use libupsf.Prelude.{ℕ, Bool, List, Option, none, some, ℤ}
use libupsf.Text.{Bytes}
use libupsf.Messages.{
  Shard, SessionContext, SessionSpec, NetworkConnection, ServiceGatewayUserPlane,
  TrafficSteeringFunction, ServiceGateway, default_shard, default_session_context,
  default_network_connection, default_user_plane, default_steering_function,
  default_service_gateway,
}

pub data Item : Type 0 where
  unset : Item
  shard : Shard → Item
  session_context : SessionContext → Item
  network_connection : NetworkConnection → Item
  service_gateway_user_plane : ServiceGatewayUserPlane → Item
  traffic_steering_function : TrafficSteeringFunction → Item
  service_gateway : ServiceGateway → Item

pub data ItemType : Type 0 where
  service_gateway service_gateway_user_plane traffic_steering_function : ItemType
  network_connection shard session_context : ItemType

pub data ListMergeStrategy : Type 0 where
  union replace subtract : ListMergeStrategy

pub record ReadReq : Type 0 where
  pub itemtype : List ItemType
  pub itemstate : List ℤ
  pub parent : List Bytes
  pub name : List Bytes
  pub watch : Bool

pub record UpdateReq : Type 0 where
  pub item : Item
  pub list_merge_strategy : ListMergeStrategy

-- What one call of `ReadV1` streams, and whether `Finish` reports success once so many items have
-- been read.
pub record Stream : Type 0 where
  pub items : List Item
  pub finish : ℕ → Bool

-- A stub: each call changes the world that the server is part of, and returns the reply message, as it
-- is left also by a call that fails, and whether the status is good.
pub record Stub (World : Type 0) : Type 0 where
  pub create_v1 : Item → World → World × Item × Bool
  pub update_v1 : UpdateReq → World → World × Item × Bool
  pub delete_v1 : Bytes → World → World × Bytes × Bool
  pub lookup_v1 : SessionSpec → World → World × SessionContext × Bool
  pub read_v1 : ReadReq → World → World × Stream

-- One member of Item's `oneof`, as the generated accessors show it.
pub record Kind (M : Type 0) : Type 0 where
  pub itemtype : ItemType
  pub default : M
  pub wrap : M → Item
  -- The member if the item has it.
  pub unwrap : Item → Option M
  pub name : M → Bytes

-- The member if the item has it, and `m` if not.
abbrev pub member_or : {M : Type 0} → Kind M → M → Item → M
member_or kind m item = elim (kind.unwrap item) [ none ↦ m | some found ↦ found ]

-- item.shard() and its like: the default message if the item holds another member.
abbrev pub member : {M : Type 0} → Kind M → Item → M
member kind item = member_or kind kind.default item

unfoldable pub has_shard : Item → Option Shard
has_shard (Item.shard m) = some m
has_shard _ = none

unfoldable pub has_session_context : Item → Option SessionContext
has_session_context (Item.session_context m) = some m
has_session_context _ = none

unfoldable pub has_network_connection : Item → Option NetworkConnection
has_network_connection (Item.network_connection m) = some m
has_network_connection _ = none

unfoldable pub has_user_plane : Item → Option ServiceGatewayUserPlane
has_user_plane (Item.service_gateway_user_plane m) = some m
has_user_plane _ = none

unfoldable pub has_steering_function : Item → Option TrafficSteeringFunction
has_steering_function (Item.traffic_steering_function m) = some m
has_steering_function _ = none

unfoldable pub has_service_gateway : Item → Option ServiceGateway
has_service_gateway (Item.service_gateway m) = some m
has_service_gateway _ = none

abbrev pub shard_kind : Kind Shard
shard_kind = record {
  itemtype = ItemType.shard;
  default = default_shard;
  wrap = Item.shard;
  unwrap = has_shard;
  name = λ m. m.name;
}

abbrev pub session_context_kind : Kind SessionContext
session_context_kind = record {
  itemtype = ItemType.session_context;
  default = default_session_context;
  wrap = Item.session_context;
  unwrap = has_session_context;
  name = λ m. m.name;
}

abbrev pub network_connection_kind : Kind NetworkConnection
network_connection_kind = record {
  itemtype = ItemType.network_connection;
  default = default_network_connection;
  wrap = Item.network_connection;
  unwrap = has_network_connection;
  name = λ m. m.name;
}

abbrev pub user_plane_kind : Kind ServiceGatewayUserPlane
user_plane_kind = record {
  itemtype = ItemType.service_gateway_user_plane;
  default = default_user_plane;
  wrap = Item.service_gateway_user_plane;
  unwrap = has_user_plane;
  name = λ m. m.name;
}

abbrev pub steering_function_kind : Kind TrafficSteeringFunction
steering_function_kind = record {
  itemtype = ItemType.traffic_steering_function;
  default = default_steering_function;
  wrap = Item.traffic_steering_function;
  unwrap = has_steering_function;
  name = λ m. m.name;
}

abbrev pub service_gateway_kind : Kind ServiceGateway
service_gateway_kind = record {
  itemtype = ItemType.service_gateway;
  default = default_service_gateway;
  wrap = Item.service_gateway;
  unwrap = has_service_gateway;
  name = λ m. m.name;
}
