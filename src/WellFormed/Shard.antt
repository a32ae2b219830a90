-- ===== src/WellFormed/Shard.antt =====
-- Shards that can be read.
use libupsf.Prelude.{List}
use libupsf.Text.{Bytes}
use libupsf.Arrays.{fill_until}
use libupsf.MapField.{MapField}
use libupsf.Messages.{Shard, ShardSpec, ShardStatus}
use libupsf.Structs.{
  KeyValue, UpsfShard, UpsfShardSpec, UpsfShardStatus, zero_key_values, zero_key_value,
}
use libupsf.Mapping.Shard.{
  shard_desired_state_to_c, shard_desired_state_to_proto, shard_spec_to_c, shard_spec_to_proto,
  put_key_value, get_key_value, shard_current_state_to_c, shard_current_state_to_proto,
  shard_status_to_c, shard_status_to_proto, shard_to_c, shard_to_proto,
}
use libupsf.WellFormed.Arrays.{
  IsDefined, IsDefined-some, IsDefined-bind, IsTerminated, Holds, store-IsTerminated, strings-Holds,
  strings-IsDefined, fill_until-Holds, collect-IsDefined,
}
use libupsf.WellFormed.Endpoint.{
  IsReadableMetadata, metadata_to_c-IsReadableMetadata, metadata_to_proto-IsDefined,
}

pub record IsReadableEntry (c : KeyValue) : Type 0 where
  pub key : IsTerminated c.key
  pub value : IsTerminated c.value

pub record IsReadableShardSpec (c : UpsfShardSpec) : Type 0 where
  pub virtual_mac : IsTerminated c.virtual_mac
  pub user_plane : IsTerminated c.desired_state.service_gateway_user_plane
  pub connections :
      Holds IsTerminated c.desired_state.network_connection_size c.desired_state.network_connection
  pub prefixes : Holds IsTerminated c.prefix_size c.prefix

pub record IsReadableShardStatus (c : UpsfShardStatus) : Type 0 where
  pub groups : Holds IsTerminated c.service_groups_supported_size c.service_groups_supported
  pub user_plane : IsTerminated c.current_state.service_gateway_user_plane
  pub connections :
      Holds IsReadableEntry c.current_state.tsf_network_connection_size
        c.current_state.tsf_network_connection

pub record IsReadableShard (c : UpsfShard) : Type 0 where
  pub name : IsTerminated c.name
  pub metadata : IsReadableMetadata c.metadata
  pub spec : IsReadableShardSpec c.spec
  pub status : IsReadableShardStatus c.status

put_key_value-IsReadableEntry :
    (e : Bytes × Bytes) → IsReadableEntry (put_key_value e zero_key_value)
unfolding put_key_value
put_key_value-IsReadableEntry (k, v) = record {
  key = store-IsTerminated k;
  value = store-IsTerminated v;
}

entries-Holds :
    (es : List (Bytes × Bytes))
    → Holds IsReadableEntry
        (fill_until put_key_value 0 es zero_key_values).1
        (fill_until put_key_value 0 es zero_key_values).0
unfolding zero_key_values
entries-Holds es =
    fill_until-Holds put_key_value zero_key_value IsReadableEntry put_key_value-IsReadableEntry es

get_key_value-IsDefined : (c : KeyValue) → IsReadableEntry c → IsDefined (get_key_value c)
unfolding get_key_value
get_key_value-IsDefined c h =
    IsDefined-bind _ _ h.key λ k. IsDefined-bind _ _ h.value λ v. IsDefined-some _

shard_spec_to_c-IsReadable : (m : ShardSpec) → IsReadableShardSpec (shard_spec_to_c m)
unfolding shard_spec_to_c shard_desired_state_to_c
shard_spec_to_c-IsReadable m = record {
  virtual_mac = store-IsTerminated m.virtual_mac;
  user_plane = store-IsTerminated m.desired_state.service_gateway_user_plane;
  connections = strings-Holds m.desired_state.network_connection;
  prefixes = strings-Holds m.prefix;
}

shard_status_to_c-IsReadable : (m : ShardStatus) → IsReadableShardStatus (shard_status_to_c m)
unfolding shard_status_to_c shard_current_state_to_c
shard_status_to_c-IsReadable m = record {
  groups = strings-Holds m.service_groups_supported;
  user_plane = store-IsTerminated m.current_state.service_gateway_user_plane;
  connections = entries-Holds m.current_state.tsf_network_connection;
}

-- The structure that a shard is mapped to has only terminated strings, and at most 16 entries in each
-- of its four arrays of 16.
pub shard_to_c-IsReadableShard : (m : Shard) → IsReadableShard (shard_to_c m)
unfolding shard_to_c
shard_to_c-IsReadableShard m = record {
  name = store-IsTerminated m.name;
  metadata = metadata_to_c-IsReadableMetadata m.metadata;
  spec = shard_spec_to_c-IsReadable m.spec;
  status = shard_status_to_c-IsReadable m.status;
}

shard_spec_to_proto-IsDefined :
    (c : UpsfShardSpec) (to : ShardSpec)
    → IsReadableShardSpec c
    → IsDefined (shard_spec_to_proto c to)
unfolding shard_spec_to_proto shard_desired_state_to_proto
shard_spec_to_proto-IsDefined c to h = IsDefined-bind _ _ h.virtual_mac λ v.
    IsDefined-bind _ _
      (IsDefined-bind _ _ h.user_plane
        λ u. IsDefined-bind _ _ (strings-IsDefined _ _ h.connections) λ n. IsDefined-some _)
      λ d. IsDefined-bind _ _ (strings-IsDefined _ _ h.prefixes) λ p. IsDefined-some _

module _ ⦃ops : MapField Bytes⦄ where
  shard_status_to_proto-IsDefined :
      (c : UpsfShardStatus) (to : ShardStatus)
      → IsReadableShardStatus c
      → IsDefined (shard_status_to_proto c to)
  unfolding shard_status_to_proto shard_current_state_to_proto
  shard_status_to_proto-IsDefined c to h = IsDefined-bind _ _ (strings-IsDefined _ _ h.groups) λ g.
      IsDefined-bind _ _
        (IsDefined-bind _ _ h.user_plane λ u.
          IsDefined-bind _ _
            (collect-IsDefined get_key_value IsReadableEntry get_key_value-IsDefined _ _
              h.connections)
            λ n. IsDefined-some _)
        λ s. IsDefined-some _

  -- A readable shard of any caller is mapped to a message without an undefined read.
  pub shard_to_proto-IsDefined :
      (c : UpsfShard) (to : Shard) → IsReadableShard c → IsDefined (shard_to_proto c to)
  unfolding shard_to_proto
  shard_to_proto-IsDefined c to h = IsDefined-bind _ _ h.name λ n.
      IsDefined-bind _ _ (metadata_to_proto-IsDefined c.metadata to.metadata h.metadata) λ d.
        IsDefined-bind _ _ (shard_spec_to_proto-IsDefined c.spec to.spec h.spec) λ p.
          IsDefined-bind _ _ (shard_status_to_proto-IsDefined c.status to.status h.status)
            λ s. IsDefined-some _
