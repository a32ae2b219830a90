-- ===== src/RoundTrip/Connection.antt =====
-- Network connections there and back.
use libupsf.Prelude.{◌≡◌, Bool, true, List, [], map, some, pos, take}
use libupsf.Text.{Bytes}
use libupsf.Text.Copy.{clip, load-store}
use libupsf.Arrays.{max_num, collect, fill_until}
use libupsf.Arrays.Loops.{breaking_round_trip}
use libupsf.MapField.{MapField, insert_all}
use libupsf.Messages.{
  NetworkConnection, NetworkConnectionStatus, default_network_connection, default_nc_status,
}
use libupsf.Structs.{zero_key_values, zero_key_value}
use libupsf.Mapping.Connection.{
  put_flag, get_flag, nc_status_to_c, nc_status_to_proto, network_connection_to_c,
  network_connection_to_proto,
}
use libupsf.RoundTrip.Endpoint.{normalise_metadata, metadata_round_trip}
use libupsf.RoundTrip.NcSpec.{normalise_union, nc_spec_round_trip}

-- The flag is lost: every entry comes back as true.
abbrev pub raise_flag : Bytes × Bool → Bytes × Bool
raise_flag (k, v) = (clip k, true)

flag_round_trip : (e : Bytes × Bool) → get_flag (put_flag e zero_key_value) ≡ some (raise_flag e)
unfolding get_flag put_flag
flag_round_trip (k, v) = rw (load-store k)

flags_round_trip :
    (es : List (Bytes × Bool))
    → collect get_flag
        (fill_until put_flag 0 es zero_key_values).1
        (fill_until put_flag 0 es zero_key_values).0
      ≡ some (map raise_flag (take max_num es))
unfolding zero_key_values
flags_round_trip es =
    breaking_round_trip get_flag put_flag raise_flag zero_key_value flag_round_trip es

module _ ⦃ops : MapField Bool⦄ where
  abbrev pub normalise_nc_status : NetworkConnectionStatus → NetworkConnectionStatus
  normalise_nc_status m = record {
    nc_active = insert_all (map raise_flag (take max_num m.nc_active)) [];
    allocated_shards = pos 0;
  }

  abbrev pub normalise_network_connection : NetworkConnection → NetworkConnection
  normalise_network_connection m = record m {
    name = clip m.name;
    metadata = normalise_metadata m.metadata;
    spec = record m.spec { nc_spec = normalise_union m.spec.nc_spec };
    status = normalise_nc_status m.status;
  }

  pub nc_status_round_trip :
      (m : NetworkConnectionStatus)
      → nc_status_to_proto (nc_status_to_c m) default_nc_status ≡ some (normalise_nc_status m)
  unfolding nc_status_to_c nc_status_to_proto
  nc_status_round_trip m = rw (flags_round_trip m.nc_active)

  -- A network connection comes back with its texts clipped to 63 bytes, its lists and its map cut to
  -- 16 entries and its times cleared. Its status is not kept: every flag of `nc_active` comes back as
  -- true, and the allocated shards as 0.
  pub network_connection_round_trip :
      (m : NetworkConnection)
      → network_connection_to_proto (network_connection_to_c m) default_network_connection
        ≡ some (normalise_network_connection m)
  unfolding network_connection_to_c network_connection_to_proto
  network_connection_round_trip m = rw (
    load-store m.name,
    metadata_round_trip m.metadata,
    nc_spec_round_trip m.spec,
    nc_status_round_trip m.status,
  )
