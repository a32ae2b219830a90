-- ===== src/Mapping/Connection.antt =====
-- Network connections in upsf/upsf_c_mapping.cpp.
use libupsf.Prelude.{Bool, true, [], ◌∷◌, Option, some, ◌>>=◌, if◌then◌else◌}
use libupsf.Text.{Bytes, store, load}
use libupsf.Arrays.{fill_until, collect}
use libupsf.MapField.{MapField, insert_all}
use libupsf.Messages.{NetworkConnection, NetworkConnectionStatus}
use libupsf.Structs.{
  KeyValue, UpsfNetworkConnection, UpsfNcStatus, zero_network_connection, zero_nc_status,
}
use libupsf.Mapping.Endpoint.{metadata_to_c, metadata_to_proto}
use libupsf.Mapping.NcSpec.{nc_spec_to_c, nc_spec_to_proto}
use libupsf.Mapping.Gateway.{maintenance_to_c, maintenance_to_proto}

-- "1" or "0" for the flag.
unfoldable pub put_flag : Bytes × Bool → KeyValue → KeyValue
put_flag (k, active) to = record {
  key = store k to.key;
  value = if active then store (b'1' ∷ []) to.value else store (b'0' ∷ []) to.value;
}

-- The allocated shards are not read.
unfoldable pub nc_status_to_c : NetworkConnectionStatus → UpsfNcStatus
unfolding zero_nc_status put_flag
nc_status_to_c from =
    let to = zero_nc_status in
    let (entries, size) = fill_until put_flag 0 from.nc_active to.nc_active in
    record to { nc_active = entries; nc_active_size = size }

-- The value is a `char` array where a `bool` is wanted: a pointer, which is never null.
unfoldable pub get_flag : KeyValue → Option (Bytes × Bool)
get_flag from = do k ← load from.key; some (k, true)

unfoldable pub network_connection_to_c : NetworkConnection → UpsfNetworkConnection
unfolding zero_network_connection maintenance_to_c
network_connection_to_c from = record zero_network_connection {
  name = store from.name zero_network_connection.name;
  metadata = metadata_to_c from.metadata;
  maintenance = maintenance_to_c from.maintenance;
  spec = nc_spec_to_c from.spec;
  status = nc_status_to_c from.status;
}

module _ ⦃ops : MapField Bool⦄ where
  unfoldable pub nc_status_to_proto :
      UpsfNcStatus → NetworkConnectionStatus → Option NetworkConnectionStatus
  unfolding get_flag
  nc_status_to_proto from to = do
    entries ← collect get_flag from.nc_active_size from.nc_active
    some (record to {
      nc_active = insert_all entries to.nc_active;
      allocated_shards = from.allocated_shards;
    })

  unfoldable pub network_connection_to_proto :
      UpsfNetworkConnection → NetworkConnection → Option NetworkConnection
  unfolding maintenance_to_proto
  network_connection_to_proto from to = do
    name ← load from.name
    metadata ← metadata_to_proto from.metadata to.metadata
    spec ← nc_spec_to_proto from.spec to.spec
    status ← nc_status_to_proto from.status to.status
    some (record to {
      name = name;
      metadata = metadata;
      maintenance = maintenance_to_proto from.maintenance to.maintenance;
      spec = spec.0;
      status = status;
    })
