-- ===== src/RoundTrip/Shard.antt =====
-- Shards there and back.
use libupsf.Prelude.{◌≡◌, List, [], map, some, take}
use libupsf.Text.{Bytes}
use libupsf.Text.Copy.{clip, load-store}
use libupsf.Arrays.{max_num, collect, fill_until}
use libupsf.Arrays.Loops.{breaking_round_trip}
use libupsf.MapField.{MapField, insert_all}
use libupsf.Messages.{
  Shard, ShardSpec, ShardDesiredState, ShardStatus, ShardCurrentState, default_shard,
  default_shard_spec, default_shard_status, default_shard_current_state,
}
use libupsf.Structs.{zero_key_values, zero_key_value}
use libupsf.Mapping.Shard.{
  shard_desired_state_to_c, shard_desired_state_to_proto, shard_spec_to_c, shard_spec_to_proto,
  put_key_value, get_key_value, shard_current_state_to_c, shard_current_state_to_proto,
  shard_status_to_c, shard_status_to_proto, mbb_to_c, mbb_to_proto, shard_to_c, shard_to_proto,
}
use libupsf.RoundTrip.Endpoint.{normalise_metadata, metadata_round_trip}
use libupsf.RoundTrip.Strings.{normalise_texts, strings_round_trip}

abbrev pub normalise_shard_desired_state : ShardDesiredState → ShardDesiredState
normalise_shard_desired_state m = record {
  service_gateway_user_plane = clip m.service_gateway_user_plane;
  network_connection = normalise_texts m.network_connection;
}

abbrev pub normalise_shard_spec : ShardSpec → ShardSpec
normalise_shard_spec m = record m {
  virtual_mac = clip m.virtual_mac;
  desired_state = normalise_shard_desired_state m.desired_state;
  prefix = normalise_texts m.prefix;
}

abbrev pub clip_entry : Bytes × Bytes → Bytes × Bytes
clip_entry (k, v) = (clip k, clip v)

key_value_round_trip :
    (e : Bytes × Bytes) → get_key_value (put_key_value e zero_key_value) ≡ some (clip_entry e)
unfolding get_key_value put_key_value
key_value_round_trip (k, v) = rw (load-store k, load-store v)

entries_round_trip :
    (es : List (Bytes × Bytes))
    → collect get_key_value
        (fill_until put_key_value 0 es zero_key_values).1
        (fill_until put_key_value 0 es zero_key_values).0
      ≡ some (map clip_entry (take max_num es))
unfolding zero_key_values
entries_round_trip es =
    breaking_round_trip get_key_value put_key_value clip_entry zero_key_value key_value_round_trip
      es

pub shard_spec_round_trip :
    (m : ShardSpec)
    → shard_spec_to_proto (shard_spec_to_c m) default_shard_spec ≡ some (normalise_shard_spec m)
unfolding shard_spec_to_c shard_spec_to_proto shard_desired_state_to_c shard_desired_state_to_proto
shard_spec_round_trip m = rw (
  load-store m.virtual_mac,
  load-store m.desired_state.service_gateway_user_plane,
  strings_round_trip m.desired_state.network_connection,
  strings_round_trip m.prefix,
)

module _ ⦃ops : MapField Bytes⦄ where
  abbrev pub normalise_shard_current_state : ShardCurrentState → ShardCurrentState
  normalise_shard_current_state m = record {
    service_gateway_user_plane = clip m.service_gateway_user_plane;
    tsf_network_connection = insert_all (map clip_entry (take max_num m.tsf_network_connection)) [];
  }

  abbrev pub normalise_shard_status : ShardStatus → ShardStatus
  normalise_shard_status m = record m {
    service_groups_supported = normalise_texts m.service_groups_supported;
    current_state = normalise_shard_current_state m.current_state;
  }

  abbrev pub normalise_shard : Shard → Shard
  normalise_shard m = record m {
    name = clip m.name;
    metadata = normalise_metadata m.metadata;
    spec = normalise_shard_spec m.spec;
    status = normalise_shard_status m.status;
  }

  pub shard_current_state_round_trip :
      (m : ShardCurrentState)
      → shard_current_state_to_proto (shard_current_state_to_c m) default_shard_current_state
        ≡ some (normalise_shard_current_state m)
  unfolding shard_current_state_to_c shard_current_state_to_proto
  shard_current_state_round_trip m =
      rw (load-store m.service_gateway_user_plane, entries_round_trip m.tsf_network_connection)

  shard_status_round_trip :
      (m : ShardStatus)
      → shard_status_to_proto (shard_status_to_c m) default_shard_status
        ≡ some (normalise_shard_status m)
  unfolding shard_status_to_c shard_status_to_proto
  shard_status_round_trip m = rw (
    strings_round_trip m.service_groups_supported,
    shard_current_state_round_trip m.current_state,
  )

  -- A shard comes back with its texts clipped to 63 bytes, its lists and its map cut to 16 entries and
  -- its times cleared; its numbers and its make-before-break state stay.
  pub shard_round_trip :
      (m : Shard) → shard_to_proto (shard_to_c m) default_shard ≡ some (normalise_shard m)
  unfolding shard_to_c shard_to_proto mbb_to_c mbb_to_proto
  shard_round_trip m = rw (
    load-store m.name,
    metadata_round_trip m.metadata,
    shard_spec_round_trip m.spec,
    shard_status_round_trip m.status,
  )
