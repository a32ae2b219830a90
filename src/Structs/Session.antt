-- ===== src/Structs/Session.antt =====
-- upsf_session_context_t with its parts.
use libupsf.Prelude.{ℕ, List, ℤ, pos}
use libupsf.Text.{UpsfString, zero_string}
use libupsf.Structs.Common.{
  UpsfMetadata, UpsfSessionFilter, zero_metadata, zero_strings, zero_session_filter,
}

pub record UpsfSessionDesiredState : Type 0 where
  pub shard : UpsfString

pub record UpsfSessionSpec : Type 0 where
  pub traffic_steering_function : UpsfString
  pub required_service_group : List UpsfString
  pub required_service_group_size : ℕ
  pub required_quality : ℤ
  pub circuit_id : UpsfString
  pub remote_id : UpsfString
  pub session_filter : UpsfSessionFilter
  pub desired_state : UpsfSessionDesiredState
  pub network_connection : UpsfString

pub record UpsfSessionCurrentState : Type 0 where
  pub user_plane_shard : UpsfString
  pub tsf_shard : UpsfString

pub record UpsfSessionStatus : Type 0 where
  pub current_state : UpsfSessionCurrentState

pub record UpsfSessionContext : Type 0 where
  pub name : UpsfString
  pub metadata : UpsfMetadata
  pub spec : UpsfSessionSpec
  pub status : UpsfSessionStatus

unfoldable pub zero_session_spec : UpsfSessionSpec
zero_session_spec = record {
  traffic_steering_function = zero_string;
  required_service_group = zero_strings;
  required_service_group_size = 0;
  required_quality = pos 0;
  circuit_id = zero_string;
  remote_id = zero_string;
  session_filter = zero_session_filter;
  desired_state = record { shard = zero_string };
  network_connection = zero_string;
}

unfoldable pub zero_session_current_state : UpsfSessionCurrentState
zero_session_current_state = record { user_plane_shard = zero_string; tsf_shard = zero_string }

unfoldable pub zero_session_context : UpsfSessionContext
zero_session_context = record {
  name = zero_string;
  metadata = zero_metadata;
  spec = zero_session_spec;
  status = record { current_state = zero_session_current_state };
}
