-- ===== src/Tests/RoundTrips.antt =====
-- Messages that go through a structure and back.
use mathlib.Core.Option
use libupsf.Prelude.{◌≡◌, refl, some, arith, pos, true}
use libupsf.Text.{Bytes, until_nul}
use libupsf.MapField.{lookup, same_bytes}
use libupsf.Messages.{
  NetworkConnectionStatus, default_shard, default_nc_spec, default_network_connection,
  default_session_context, default_user_plane, default_nc_status,
}
use libupsf.Mapping.Gateway.{user_plane_to_c, user_plane_to_proto}
use libupsf.Mapping.NcSpec.{nc_spec_to_c, nc_spec_to_proto}
use libupsf.Mapping.Connection.{
  network_connection_to_c, network_connection_to_proto, nc_status_to_c, nc_status_to_proto,
}
use libupsf.Mapping.Shard.{shard_to_c, shard_to_proto}
use libupsf.Mapping.Session.{session_context_to_c, session_context_to_proto}
use libupsf.RoundTrip.Gateway.{user_plane_round_trip, normalise_user_plane}
use libupsf.RoundTrip.NcSpec.{nc_spec_round_trip}
use libupsf.RoundTrip.Connection.{network_connection_round_trip, normalise_network_connection}
use libupsf.RoundTrip.Session.{session_context_round_trip, normalise_session_context}
use libupsf.RoundTrip.Shard.{shard_round_trip, normalise_shard}
use libupsf.RoundTrip.Exact.{FitsUserPlane, FitsSession, session_context_exact}
use libupsf.RoundTrip.Maps.{FitsMap, nc_status_flags_lost}
use libupsf.Tests.Samples.{
  connection, nc_spec, nc_status, shard, shard_state, session, user_plane, texts_map, flags_map,
}

user_plane_round_trip_example :
    user_plane_to_proto (user_plane_to_c user_plane) default_user_plane
    ≡ some (normalise_user_plane user_plane)
user_plane_round_trip_example = user_plane_round_trip user_plane

nc_spec_round_trip_example :
    nc_spec_to_proto (nc_spec_to_c nc_spec) default_nc_spec ≡ some (nc_spec, true)
unfolding until_nul
nc_spec_round_trip_example = nc_spec_round_trip nc_spec

network_connection_round_trip_example :
    network_connection_to_proto (network_connection_to_c connection) default_network_connection
    ≡ some (normalise_network_connection connection)
network_connection_round_trip_example = network_connection_round_trip connection

session_context_round_trip_example :
    session_context_to_proto (session_context_to_c session) default_session_context
    ≡ some (normalise_session_context session)
session_context_round_trip_example = session_context_round_trip session

shard_round_trip_example :
    shard_to_proto (shard_to_c shard) default_shard ≡ some (normalise_shard shard)
shard_round_trip_example = shard_round_trip shard

user_plane-FitsUserPlane : FitsUserPlane user_plane
unfolding until_nul
user_plane-FitsUserPlane = record {
  name = record { short = omega arith; plain = refl };
  service_gateway_name = record { short = omega arith; plain = refl };
  metadata = record {
    description = record { short = omega arith; plain = refl };
    created = refl;
    last_updated = refl;
  };
  groups = record {
    short = omega arith;
    each = (
      record { short = omega arith; plain = refl },
      (record { short = omega arith; plain = refl }, tt),
    );
  };
  endpoint = record {
    endpoint_name = record { short = omega arith; plain = refl };
    transport = record { short = omega arith; plain = refl };
  };
}

session-FitsSession : FitsSession session
unfolding until_nul
session-FitsSession = record {
  name = record { short = omega arith; plain = refl };
  metadata = record {
    description = record { short = omega arith; plain = refl };
    created = refl;
    last_updated = refl;
  };
  spec = record {
    traffic_steering_function = record { short = omega arith; plain = refl };
    groups = record {
      short = omega arith;
      each = (record { short = omega arith; plain = refl }, tt);
    };
    circuit_id = record { short = omega arith; plain = refl };
    remote_id = record { short = omega arith; plain = refl };
    source_mac_address = record { short = omega arith; plain = refl };
    shard = record { short = omega arith; plain = refl };
    network_connection = record { short = omega arith; plain = refl };
  };
  user_plane_shard = record { short = omega arith; plain = refl };
  tsf_shard = record { short = omega arith; plain = refl };
}

state-FitsMap : FitsMap shard_state.tsf_network_connection
unfolding until_nul same_bytes
state-FitsMap = record {
  short = omega arith;
  distinct = ((refl, tt), (tt, tt));
  keys = (
    record { short = omega arith; plain = refl },
    (record { short = omega arith; plain = refl }, tt),
  );
}

flags-FitsMap : FitsMap nc_status.nc_active
unfolding until_nul same_bytes
flags-FitsMap = record {
  short = omega arith;
  distinct = ((refl, tt), (tt, tt));
  keys = (
    record { short = omega arith; plain = refl },
    (record { short = omega arith; plain = refl }, tt),
  );
}

session_context_exact_example :
    session_context_to_proto (session_context_to_c session) default_session_context ≡ some session
session_context_exact_example = session_context_exact session session-FitsSession

nc_status_flags_lost_example :
    (r : NetworkConnectionStatus) × (nc_status_to_proto (nc_status_to_c nc_status) default_nc_status
      ≡ some r)
    × ((k : Bytes) → lookup k r.nc_active ≡ Option.map (λ _. true) (lookup k nc_status.nc_active))
    × (r.allocated_shards ≡ pos 0)
nc_status_flags_lost_example = nc_status_flags_lost nc_status flags-FitsMap
