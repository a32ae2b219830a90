-- ===== src/Tests/Readable.antt =====
-- Structures that can be read.
use libupsf.Prelude.{[], ◌∷◌}
use libupsf.Mapping.Connection.{network_connection_to_c}
use libupsf.Mapping.Shard.{shard_to_c}
use libupsf.WellFormed.Connection.{
  IsReadableConnection, network_connection_to_c-IsReadableConnection,
}
use libupsf.WellFormed.Shard.{IsReadableShard, shard_to_c-IsReadableShard}
use libupsf.Mapping.Gateway.{service_gateway_to_c, user_plane_to_c, steering_function_to_c}
use libupsf.Mapping.Session.{session_context_to_c}
use libupsf.WellFormed.Gateway.{
  IsReadableGateway, IsReadableUserPlane, IsReadableSteering,
  service_gateway_to_c-IsReadableGateway, user_plane_to_c-IsReadableUserPlane,
  steering_function_to_c-IsReadableSteering,
}
use libupsf.WellFormed.Session.{IsReadableSession, session_context_to_c-IsReadableSession}
use libupsf.Slots.{Slots}
use libupsf.Wrapper.Exports
use libupsf.Wrapper.Safety.{AreSafe, calls_safe}
use libupsf.Printing.Common.{codes}
use libupsf.Tests.Samples.{
  gateway, user_plane, steering_function, session, connection, shard, stored, network, texts_map,
  flags_map,
}

network_connection_to_c-IsReadableConnection_example :
    IsReadableConnection (network_connection_to_c connection)
network_connection_to_c-IsReadableConnection_example =
    network_connection_to_c-IsReadableConnection connection

shard_to_c-IsReadableShard_example : IsReadableShard (shard_to_c shard)
shard_to_c-IsReadableShard_example = shard_to_c-IsReadableShard shard

abbrev slots : Slots
slots = (7, codes "localhost:50051") ∷ []

calls_safe_example :
    AreSafe network Exports.service_gateway IsReadableGateway slots 7 stored
      (service_gateway_to_c gateway)
    × AreSafe network Exports.service_gateway_user_plane IsReadableUserPlane slots 7 stored
        (user_plane_to_c user_plane)
    × AreSafe network Exports.traffic_steering_function IsReadableSteering slots 7 stored
        (steering_function_to_c steering_function)
    × AreSafe network Exports.network_connection IsReadableConnection slots 7 stored
        (network_connection_to_c connection)
    × AreSafe network Exports.shard IsReadableShard slots 7 stored (shard_to_c shard)
    × AreSafe network Exports.session_context IsReadableSession slots 7 stored
        (session_context_to_c session)
calls_safe_example =
    calls_safe network slots 7 stored (service_gateway_to_c gateway) (user_plane_to_c user_plane)
      (steering_function_to_c steering_function) (network_connection_to_c connection)
      (shard_to_c shard) (session_context_to_c session)
      (service_gateway_to_c-IsReadableGateway gateway)
      (user_plane_to_c-IsReadableUserPlane user_plane)
      (steering_function_to_c-IsReadableSteering steering_function)
      (network_connection_to_c-IsReadableConnection connection) (shard_to_c-IsReadableShard shard)
      (session_context_to_c-IsReadableSession session)
