-- ===== src/Mapping/Session.antt =====
-- Session contexts in upsf/upsf_c_mapping.cpp.
use libupsf.Prelude.{◌++◌, Option, some, ◌>>=◌}
use libupsf.Text.{zero_string, store, load}
use libupsf.Arrays.{fill_until, collect}
use libupsf.Messages.{
  SessionContext, SessionSpec, SessionDesiredState, SessionStatus, SessionCurrentState,
}
use libupsf.Structs.{
  UpsfSessionContext, UpsfSessionSpec, UpsfSessionDesiredState, UpsfSessionStatus,
  UpsfSessionCurrentState, zero_session_context, zero_session_spec, zero_session_current_state,
}
use libupsf.Mapping.Endpoint.{
  metadata_to_c, metadata_to_proto, session_filter_to_c, session_filter_to_proto,
}

unfoldable pub session_desired_state_to_c : SessionDesiredState → UpsfSessionDesiredState
session_desired_state_to_c from = record { shard = store from.shard zero_string }

unfoldable pub session_desired_state_to_proto :
    UpsfSessionDesiredState → SessionDesiredState → Option SessionDesiredState
session_desired_state_to_proto from to = do
  shard ← load from.shard
  some (record to { shard = shard })

unfoldable pub session_spec_to_c : SessionSpec → UpsfSessionSpec
unfolding zero_session_spec
session_spec_to_c from =
    let to = zero_session_spec in
    let (groups, size) = fill_until store 0 from.required_service_group to.required_service_group in
    record to {
      traffic_steering_function = store from.traffic_steering_function to.traffic_steering_function;
      required_service_group = groups;
      required_service_group_size = size;
      required_quality = from.required_quality;
      circuit_id = store from.circuit_id to.circuit_id;
      remote_id = store from.remote_id to.remote_id;
      session_filter = session_filter_to_c from.session_filter;
      desired_state = session_desired_state_to_c from.desired_state;
      network_connection = store from.network_connection to.network_connection;
    }

unfoldable pub session_spec_to_proto : UpsfSessionSpec → SessionSpec → Option SessionSpec
session_spec_to_proto from to = do
  traffic_steering_function ← load from.traffic_steering_function
  groups ← collect load from.required_service_group_size from.required_service_group
  circuit_id ← load from.circuit_id
  remote_id ← load from.remote_id
  session_filter ← session_filter_to_proto from.session_filter to.session_filter
  desired_state ← session_desired_state_to_proto from.desired_state to.desired_state
  network_connection ← load from.network_connection
  some (record to {
    traffic_steering_function = traffic_steering_function;
    required_service_group = to.required_service_group ++ groups;
    required_quality = from.required_quality;
    circuit_id = circuit_id;
    remote_id = remote_id;
    session_filter = session_filter;
    desired_state = desired_state;
    network_connection = network_connection;
  })

unfoldable pub session_current_state_to_c : SessionCurrentState → UpsfSessionCurrentState
unfolding zero_session_current_state
session_current_state_to_c from = record zero_session_current_state {
  user_plane_shard = store from.user_plane_shard zero_session_current_state.user_plane_shard;
  tsf_shard = store from.tsf_shard zero_session_current_state.tsf_shard;
}

unfoldable pub session_current_state_to_proto :
    UpsfSessionCurrentState → SessionCurrentState → Option SessionCurrentState
session_current_state_to_proto from to = do
  user_plane_shard ← load from.user_plane_shard
  tsf_shard ← load from.tsf_shard
  some (record to { user_plane_shard = user_plane_shard; tsf_shard = tsf_shard })

unfoldable pub session_status_to_c : SessionStatus → UpsfSessionStatus
session_status_to_c from = record { current_state = session_current_state_to_c from.current_state }

unfoldable pub session_status_to_proto : UpsfSessionStatus → SessionStatus → Option SessionStatus
session_status_to_proto from to = do
  current_state ← session_current_state_to_proto from.current_state to.current_state
  some (record to { current_state = current_state })

unfoldable pub session_context_to_c : SessionContext → UpsfSessionContext
unfolding zero_session_context
session_context_to_c from = record zero_session_context {
  name = store from.name zero_session_context.name;
  metadata = metadata_to_c from.metadata;
  spec = session_spec_to_c from.spec;
  status = session_status_to_c from.status;
}

unfoldable pub session_context_to_proto :
    UpsfSessionContext → SessionContext → Option SessionContext
session_context_to_proto from to = do
  name ← load from.name
  metadata ← metadata_to_proto from.metadata to.metadata
  spec ← session_spec_to_proto from.spec to.spec
  status ← session_status_to_proto from.status to.status
  some (record to { name = name; metadata = metadata; spec = spec; status = status })
