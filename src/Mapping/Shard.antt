-- ===== src/Mapping/Shard.antt =====
-- Shards in upsf/upsf_c_mapping.cpp.
use libupsf.Prelude.{◌++◌, Option, some, length, ◌>>=◌}
use libupsf.Text.{Bytes, store, load}
use libupsf.Arrays.{clamp, fill, fill_until, collect}
use libupsf.MapField.{MapField, insert_all}
use libupsf.Messages.{Shard, ShardSpec, ShardDesiredState, ShardStatus, ShardCurrentState, Mbb}
use libupsf.Structs.{
  KeyValue, UpsfShard, UpsfShardSpec, UpsfShardDesiredState, UpsfShardStatus, UpsfShardCurrentState,
  UpsfMbb, zero_shard, zero_shard_spec, zero_shard_desired_state, zero_shard_status,
  zero_shard_current_state, zero_mbb,
}
use libupsf.Mapping.Endpoint.{metadata_to_c, metadata_to_proto}

unfoldable pub shard_desired_state_to_c : ShardDesiredState → UpsfShardDesiredState
unfolding zero_shard_desired_state
shard_desired_state_to_c from =
    let to = zero_shard_desired_state in
    let size = clamp (length from.network_connection) in
    record to {
      service_gateway_user_plane =
          store from.service_gateway_user_plane to.service_gateway_user_plane;
      network_connection_size = size;
      network_connection = fill store size from.network_connection to.network_connection;
    }

unfoldable pub shard_desired_state_to_proto :
    UpsfShardDesiredState → ShardDesiredState → Option ShardDesiredState
shard_desired_state_to_proto from to = do
  service_gateway_user_plane ← load from.service_gateway_user_plane
  connections ← collect load from.network_connection_size from.network_connection
  some (record to {
    service_gateway_user_plane = service_gateway_user_plane;
    network_connection = to.network_connection ++ connections;
  })

unfoldable pub shard_spec_to_c : ShardSpec → UpsfShardSpec
unfolding zero_shard_spec
shard_spec_to_c from =
    let to = zero_shard_spec in
    let size = clamp (length from.prefix) in
    record to {
      max_session_count = from.max_session_count;
      virtual_mac = store from.virtual_mac to.virtual_mac;
      desired_state = shard_desired_state_to_c from.desired_state;
      prefix_size = size;
      prefix = fill store size from.prefix to.prefix;
    }

unfoldable pub shard_spec_to_proto : UpsfShardSpec → ShardSpec → Option ShardSpec
shard_spec_to_proto from to = do
  virtual_mac ← load from.virtual_mac
  desired_state ← shard_desired_state_to_proto from.desired_state to.desired_state
  prefix ← collect load from.prefix_size from.prefix
  some (record to {
    max_session_count = from.max_session_count;
    virtual_mac = virtual_mac;
    desired_state = desired_state;
    prefix = to.prefix ++ prefix;
  })

unfoldable pub put_key_value : Bytes × Bytes → KeyValue → KeyValue
put_key_value (k, v) to = record { key = store k to.key; value = store v to.value }

unfoldable pub get_key_value : KeyValue → Option (Bytes × Bytes)
get_key_value from = do k ← load from.key; v ← load from.value; some (k, v)

unfoldable pub shard_current_state_to_c : ShardCurrentState → UpsfShardCurrentState
unfolding zero_shard_current_state put_key_value
shard_current_state_to_c from =
    let to = zero_shard_current_state in
    let (entries, size) =
      fill_until put_key_value 0 from.tsf_network_connection to.tsf_network_connection in
    record to {
      service_gateway_user_plane =
          store from.service_gateway_user_plane to.service_gateway_user_plane;
      tsf_network_connection = entries;
      tsf_network_connection_size = size;
    }

unfoldable pub shard_status_to_c : ShardStatus → UpsfShardStatus
unfolding zero_shard_status
shard_status_to_c from =
    let to = zero_shard_status in
    let size = clamp (length from.service_groups_supported) in
    record to {
      allocated_session_count = from.allocated_session_count;
      maximum_allocated_quality = from.maximum_allocated_quality;
      service_groups_supported_size = size;
      service_groups_supported =
          fill store size from.service_groups_supported to.service_groups_supported;
      current_state = shard_current_state_to_c from.current_state;
    }

unfoldable pub mbb_to_c : Mbb → UpsfMbb
mbb_to_c from = record zero_mbb { mbb_state = from.mbb_state }

unfoldable pub mbb_to_proto : UpsfMbb → Mbb → Mbb
mbb_to_proto from to = record to { mbb_state = from.mbb_state }

unfoldable pub shard_to_c : Shard → UpsfShard
unfolding zero_shard
shard_to_c from = record zero_shard {
  name = store from.name zero_shard.name;
  metadata = metadata_to_c from.metadata;
  spec = shard_spec_to_c from.spec;
  status = shard_status_to_c from.status;
  mbb = mbb_to_c from.mbb;
}

module _ ⦃ops : MapField Bytes⦄ where
  unfoldable pub shard_current_state_to_proto :
      UpsfShardCurrentState → ShardCurrentState → Option ShardCurrentState
  unfolding get_key_value
  shard_current_state_to_proto from to = do
    service_gateway_user_plane ← load from.service_gateway_user_plane
    entries ← collect get_key_value from.tsf_network_connection_size from.tsf_network_connection
    some (record to {
      service_gateway_user_plane = service_gateway_user_plane;
      tsf_network_connection = insert_all entries to.tsf_network_connection;
    })

  unfoldable pub shard_status_to_proto : UpsfShardStatus → ShardStatus → Option ShardStatus
  shard_status_to_proto from to = do
    groups ← collect load from.service_groups_supported_size from.service_groups_supported
    current_state ← shard_current_state_to_proto from.current_state to.current_state
    some (record to {
      allocated_session_count = from.allocated_session_count;
      maximum_allocated_quality = from.maximum_allocated_quality;
      service_groups_supported = to.service_groups_supported ++ groups;
      current_state = current_state;
    })

  unfoldable pub shard_to_proto : UpsfShard → Shard → Option Shard
  shard_to_proto from to = do
    name ← load from.name
    metadata ← metadata_to_proto from.metadata to.metadata
    spec ← shard_spec_to_proto from.spec to.spec
    status ← shard_status_to_proto from.status to.status
    some (record to {
      name = name;
      metadata = metadata;
      spec = spec;
      status = status;
      mbb = mbb_to_proto from.mbb to.mbb;
    })
