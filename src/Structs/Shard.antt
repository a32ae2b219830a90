-- ===== src/Structs/Shard.antt =====
-- upsf_shard_t with its parts.
use libupsf.Prelude.{ℕ, List, ℤ, pos}
use libupsf.Text.{UpsfString, zero_string}
use libupsf.Structs.Common.{KeyValue, UpsfMetadata, zero_metadata, zero_strings, zero_key_values}

pub record UpsfShardDesiredState : Type 0 where
  pub service_gateway_user_plane : UpsfString
  pub network_connection : List UpsfString
  pub network_connection_size : ℕ

pub record UpsfShardSpec : Type 0 where
  pub max_session_count : ℤ
  pub virtual_mac : UpsfString
  pub desired_state : UpsfShardDesiredState
  pub prefix : List UpsfString
  pub prefix_size : ℕ

pub record UpsfShardCurrentState : Type 0 where
  pub service_gateway_user_plane : UpsfString
  pub tsf_network_connection : List KeyValue
  pub tsf_network_connection_size : ℕ

pub record UpsfShardStatus : Type 0 where
  pub allocated_session_count : ℤ
  pub maximum_allocated_quality : ℤ
  pub service_groups_supported : List UpsfString
  pub service_groups_supported_size : ℕ
  pub current_state : UpsfShardCurrentState

pub record UpsfMbb : Type 0 where
  pub mbb_state : ℤ

pub record UpsfShard : Type 0 where
  pub name : UpsfString
  pub metadata : UpsfMetadata
  pub spec : UpsfShardSpec
  pub status : UpsfShardStatus
  pub mbb : UpsfMbb

unfoldable pub zero_shard_desired_state : UpsfShardDesiredState
zero_shard_desired_state = record {
  service_gateway_user_plane = zero_string;
  network_connection = zero_strings;
  network_connection_size = 0;
}

unfoldable pub zero_shard_spec : UpsfShardSpec
zero_shard_spec = record {
  max_session_count = pos 0;
  virtual_mac = zero_string;
  desired_state = zero_shard_desired_state;
  prefix = zero_strings;
  prefix_size = 0;
}

unfoldable pub zero_shard_current_state : UpsfShardCurrentState
zero_shard_current_state = record {
  service_gateway_user_plane = zero_string;
  tsf_network_connection = zero_key_values;
  tsf_network_connection_size = 0;
}

unfoldable pub zero_shard_status : UpsfShardStatus
zero_shard_status = record {
  allocated_session_count = pos 0;
  maximum_allocated_quality = pos 0;
  service_groups_supported = zero_strings;
  service_groups_supported_size = 0;
  current_state = zero_shard_current_state;
}

abbrev pub zero_mbb : UpsfMbb
zero_mbb = record { mbb_state = pos 0 }

unfoldable pub zero_shard : UpsfShard
zero_shard = record {
  name = zero_string;
  metadata = zero_metadata;
  spec = zero_shard_spec;
  status = zero_shard_status;
  mbb = zero_mbb;
}
