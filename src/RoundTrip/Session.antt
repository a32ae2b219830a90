-- ===== src/RoundTrip/Session.antt =====
-- Session contexts there and back.
use libupsf.Prelude.{◌≡◌, some}
use libupsf.Text.Copy.{clip, load-store}
use libupsf.Messages.{
  SessionContext, SessionSpec, SessionStatus, default_session_spec, default_session_status,
  default_session_context,
}
use libupsf.Mapping.Session.{
  session_desired_state_to_c, session_desired_state_to_proto, session_spec_to_c,
  session_spec_to_proto, session_current_state_to_c, session_current_state_to_proto,
  session_status_to_c, session_status_to_proto, session_context_to_c, session_context_to_proto,
}
use libupsf.RoundTrip.Endpoint.{
  normalise_metadata, normalise_session_filter, metadata_round_trip, session_filter_round_trip,
}
use libupsf.RoundTrip.Strings.{normalise_texts, strings_break_round_trip}

abbrev pub normalise_session_spec : SessionSpec → SessionSpec
normalise_session_spec m = record m {
  traffic_steering_function = clip m.traffic_steering_function;
  required_service_group = normalise_texts m.required_service_group;
  circuit_id = clip m.circuit_id;
  remote_id = clip m.remote_id;
  session_filter = normalise_session_filter m.session_filter;
  desired_state = record { shard = clip m.desired_state.shard };
  network_connection = clip m.network_connection;
}

abbrev pub normalise_session_status : SessionStatus → SessionStatus
normalise_session_status m = record {
  current_state = record {
    user_plane_shard = clip m.current_state.user_plane_shard;
    tsf_shard = clip m.current_state.tsf_shard;
  };
}

abbrev pub normalise_session_context : SessionContext → SessionContext
normalise_session_context m = record {
  name = clip m.name;
  metadata = normalise_metadata m.metadata;
  spec = normalise_session_spec m.spec;
  status = normalise_session_status m.status;
}

-- The specification of a session, which a lookup sends, comes back with its texts clipped to 63 bytes
-- and its service groups cut to 16.
pub session_spec_round_trip :
    (m : SessionSpec)
    → session_spec_to_proto (session_spec_to_c m) default_session_spec
      ≡ some (normalise_session_spec m)
unfolding session_spec_to_c session_spec_to_proto session_desired_state_to_c
    session_desired_state_to_proto
session_spec_round_trip m = rw (
  load-store m.traffic_steering_function,
  strings_break_round_trip m.required_service_group,
  load-store m.circuit_id,
  load-store m.remote_id,
  session_filter_round_trip m.session_filter,
  load-store m.desired_state.shard,
  load-store m.network_connection,
)

session_status_round_trip :
    (m : SessionStatus)
    → session_status_to_proto (session_status_to_c m) default_session_status
      ≡ some (normalise_session_status m)
unfolding session_status_to_c session_status_to_proto session_current_state_to_c
    session_current_state_to_proto
session_status_round_trip m =
    rw (load-store m.current_state.user_plane_shard, load-store m.current_state.tsf_shard)

-- A session context comes back with its texts clipped to 63 bytes, its required service groups cut to
-- 16 and its times cleared; the required quality and the VLANs of its filter stay.
pub session_context_round_trip :
    (m : SessionContext)
    → session_context_to_proto (session_context_to_c m) default_session_context
      ≡ some (normalise_session_context m)
unfolding session_context_to_c session_context_to_proto
session_context_round_trip m = rw (
  load-store m.name,
  metadata_round_trip m.metadata,
  session_spec_round_trip m.spec,
  session_status_round_trip m.status,
)
