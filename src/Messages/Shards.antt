-- ===== src/Messages/Shards.antt =====
-- Message Shard with its parts.
use libupsf.Prelude.{List, [], ℤ, pos}
use libupsf.Text.{Bytes}
use libupsf.Messages.Common.{MetaData, default_meta_data}

pub record ShardDesiredState : Type 0 where
  pub service_gateway_user_plane : Bytes
  pub network_connection : List Bytes

pub record ShardSpec : Type 0 where
  pub max_session_count : ℤ
  pub virtual_mac : Bytes
  pub desired_state : ShardDesiredState
  pub prefix : List Bytes

pub record ShardCurrentState : Type 0 where
  pub service_gateway_user_plane : Bytes
  pub tsf_network_connection : List (Bytes × Bytes)

pub record ShardStatus : Type 0 where
  pub allocated_session_count : ℤ
  pub maximum_allocated_quality : ℤ
  pub service_groups_supported : List Bytes
  pub current_state : ShardCurrentState

pub record Mbb : Type 0 where
  pub mbb_state : ℤ

pub record Shard : Type 0 where
  pub name : Bytes
  pub metadata : MetaData
  pub spec : ShardSpec
  pub status : ShardStatus
  pub mbb : Mbb

abbrev pub default_shard_desired_state : ShardDesiredState
default_shard_desired_state = record { service_gateway_user_plane = []; network_connection = [] }

abbrev pub default_shard_spec : ShardSpec
default_shard_spec = record {
  max_session_count = pos 0;
  virtual_mac = [];
  desired_state = default_shard_desired_state;
  prefix = [];
}

abbrev pub default_shard_current_state : ShardCurrentState
default_shard_current_state = record {
  service_gateway_user_plane = [];
  tsf_network_connection = [];
}

abbrev pub default_shard_status : ShardStatus
default_shard_status = record {
  allocated_session_count = pos 0;
  maximum_allocated_quality = pos 0;
  service_groups_supported = [];
  current_state = default_shard_current_state;
}

abbrev pub default_shard : Shard
default_shard = record {
  name = [];
  metadata = default_meta_data;
  spec = default_shard_spec;
  status = default_shard_status;
  mbb = record { mbb_state = pos 0 };
}
