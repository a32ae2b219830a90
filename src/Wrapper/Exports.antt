-- ===== src/Wrapper/Exports.antt =====
-- What differs between the kinds of items for which upsf/upsf.h exports the same functions. The
-- functions themselves are in the child modules.
pub mod Gateways
pub mod Sessions
use libupsf.Prelude.{ℕ, Bool, List, Option, ℤ}
use libupsf.Text.{Bytes}
use libupsf.MapField.{MapField}
use libupsf.Messages.{
  ServiceGateway, ServiceGatewayUserPlane, TrafficSteeringFunction, NetworkConnection, Shard,
  SessionContext,
}
use libupsf.Structs.{
  UpsfServiceGateway, UpsfUserPlane, UpsfSteeringFunction, UpsfNetworkConnection, UpsfShard,
  UpsfSessionContext, zero_service_gateway, zero_user_plane, zero_steering_function,
  zero_network_connection, zero_shard, zero_session_context,
}
use libupsf.Service.{
  Stub, service_gateway_kind, user_plane_kind, steering_function_kind, network_connection_kind,
  shard_kind, session_context_kind,
}
use libupsf.Mapping.Gateway.{
  service_gateway_to_c, service_gateway_to_proto, user_plane_to_c, user_plane_to_proto,
  steering_function_to_c, steering_function_to_proto,
}
use libupsf.Mapping.Connection.{network_connection_to_c, network_connection_to_proto}
use libupsf.Mapping.Shard.{shard_to_c, shard_to_proto}
use libupsf.Mapping.Session.{session_context_to_c, session_context_to_proto}
use libupsf.Slots.{Slots}
use libupsf.Wrapper.{Exported, Returned, upsf_create, upsf_update, upsf_get, upsf_delete, upsf_list}

abbrev pub service_gateway : Exported UpsfServiceGateway ServiceGateway
service_gateway = record {
  kind = service_gateway_kind;
  to_c = service_gateway_to_c;
  to_proto = service_gateway_to_proto;
  zero = zero_service_gateway;
  name = λ c. c.name;
}

abbrev pub service_gateway_user_plane : Exported UpsfUserPlane ServiceGatewayUserPlane
service_gateway_user_plane = record {
  kind = user_plane_kind;
  to_c = user_plane_to_c;
  to_proto = user_plane_to_proto;
  zero = zero_user_plane;
  name = λ c. c.name;
}

abbrev pub traffic_steering_function : Exported UpsfSteeringFunction TrafficSteeringFunction
traffic_steering_function = record {
  kind = steering_function_kind;
  to_c = steering_function_to_c;
  to_proto = steering_function_to_proto;
  zero = zero_steering_function;
  name = λ c. c.name;
}

module _ ⦃ops : MapField Bool⦄ where
  abbrev pub network_connection : Exported UpsfNetworkConnection NetworkConnection
  network_connection = record {
    kind = network_connection_kind;
    to_c = network_connection_to_c;
    to_proto = network_connection_to_proto;
    zero = zero_network_connection;
    name = λ c. c.name;
  }

module _ ⦃ops : MapField Bytes⦄ where
  abbrev pub shard : Exported UpsfShard Shard
  shard = record {
    kind = shard_kind;
    to_c = shard_to_c;
    to_proto = shard_to_proto;
    zero = zero_shard;
    name = λ c. c.name;
  }

abbrev pub session_context : Exported UpsfSessionContext SessionContext
session_context = record {
  kind = session_context_kind;
  to_c = session_context_to_c;
  to_proto = session_context_to_proto;
  zero = zero_session_context;
  name = λ c. c.name;
}
