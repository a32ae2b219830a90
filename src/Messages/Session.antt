-- ===== src/Messages/Session.antt =====
-- Message SessionContext with its parts.
use libupsf.Prelude.{List, [], ℤ, pos}
use libupsf.Text.{Bytes}
use libupsf.Messages.Common.{MetaData, SessionFilter, default_meta_data, default_session_filter}

pub record SessionDesiredState : Type 0 where
  pub shard : Bytes

pub record SessionSpec : Type 0 where
  pub traffic_steering_function : Bytes
  pub required_service_group : List Bytes
  pub required_quality : ℤ
  pub circuit_id : Bytes
  pub remote_id : Bytes
  pub session_filter : SessionFilter
  pub desired_state : SessionDesiredState
  pub network_connection : Bytes

pub record SessionCurrentState : Type 0 where
  pub user_plane_shard : Bytes
  pub tsf_shard : Bytes

pub record SessionStatus : Type 0 where
  pub current_state : SessionCurrentState

pub record SessionContext : Type 0 where
  pub name : Bytes
  pub metadata : MetaData
  pub spec : SessionSpec
  pub status : SessionStatus

abbrev pub default_session_spec : SessionSpec
default_session_spec = record {
  traffic_steering_function = [];
  required_service_group = [];
  required_quality = pos 0;
  circuit_id = [];
  remote_id = [];
  session_filter = default_session_filter;
  desired_state = record { shard = [] };
  network_connection = [];
}

abbrev pub default_session_status : SessionStatus
default_session_status = record { current_state = record { user_plane_shard = []; tsf_shard = [] } }

abbrev pub default_session_context : SessionContext
default_session_context = record {
  name = [];
  metadata = default_meta_data;
  spec = default_session_spec;
  status = default_session_status;
}
