-- ===== src/Tests/Samples.antt =====
-- Messages, a map field and a server to test with.
use libupsf.Prelude.{
  ◌≡◌, refl, Bool, true, false, List, [], ◌∷◌, some, pos, replicate, if◌then◌else◌,
}
use libupsf.Text.{Bytes}
use libupsf.MapField.{MapField, same_bytes, lookup}
use libupsf.Messages.{
  MetaData, Endpoint, TransportEndpoint, NcSpec, NetworkConnectionSpec, NetworkConnection, Shard,
  ShardCurrentState, SessionContext, SessionSpec, ServiceGateway, ServiceGatewayUserPlane,
  TrafficSteeringFunction, NetworkConnectionStatus, no_time, default_session_context,
}
use libupsf.Printing.Common.{codes}
use libupsf.Service.{Item, Stub}

abbrev pub metadata : MetaData
metadata = record {
  description = codes "leased";
  created = record { seconds = pos 7; nanos = pos 1 };
  last_updated = no_time;
  derived_state = pos 2;
}

abbrev pub plain_metadata : MetaData
plain_metadata = record {
  description = codes "leased";
  created = no_time;
  last_updated = no_time;
  derived_state = pos 3;
}

abbrev pub vtep_endpoint : Endpoint
vtep_endpoint = record {
  endpoint_name = codes "ep1";
  transport_endpoint =
      TransportEndpoint.vtep
        (record { ip_address = codes "10.0.0.1"; udp_port = pos 4789; vni = pos 5 });
}

abbrev pub port_endpoint : Endpoint
port_endpoint = record {
  endpoint_name = codes "ep2";
  transport_endpoint =
      TransportEndpoint.port_vlan
        (record { logical_port = codes "eth0"; svlan = pos 100; cvlan = pos 200 });
}

abbrev pub flags : List (Bytes × Bool)
flags = (codes "tsf-1", true) ∷ (codes "tsf-2", false) ∷ []

abbrev pub nc_status : NetworkConnectionStatus
nc_status = record { nc_active = flags; allocated_shards = pos 4 }

abbrev pub nc_spec : NetworkConnectionSpec
nc_spec = record {
  maximum_supported_quality = pos 9;
  nc_spec = NcSpec.ss_mptpc (record {
    sgup_endpoint = vtep_endpoint ∷ port_endpoint ∷ [];
    tsf_endpoint = port_endpoint ∷ [];
  });
}

abbrev pub connection : NetworkConnection
connection = record {
  name = codes "nc-1";
  metadata = metadata;
  maintenance = record { maintenance_req = pos 1 };
  spec = nc_spec;
  status = nc_status;
}

abbrev pub shard_state : ShardCurrentState
shard_state = record {
  service_gateway_user_plane = codes "sgup-1";
  tsf_network_connection = (codes "tsf-1", codes "nc-1") ∷ (codes "tsf-2", replicate 70 b'x') ∷ [];
}

abbrev pub shard : Shard
shard = record {
  name = codes "shard-1";
  metadata = metadata;
  spec = record {
    max_session_count = pos 64;
    virtual_mac = codes "00:00:5e:00:53:01";
    desired_state = record {
      service_gateway_user_plane = codes "sgup-1";
      network_connection = replicate 20 (codes "nc-1");
    };
    prefix = codes "10.1.0.0/16" ∷ [];
  };
  status = record {
    allocated_session_count = pos 3;
    maximum_allocated_quality = pos 1500;
    service_groups_supported = codes "gold" ∷ codes "silver" ∷ [];
    current_state = shard_state;
  };
  mbb = record { mbb_state = pos 2 };
}

abbrev pub session_spec : SessionSpec
session_spec = record {
  traffic_steering_function = codes "tsf-1";
  required_service_group = codes "gold" ∷ [];
  required_quality = pos 100;
  circuit_id = codes "circuit";
  remote_id = codes "remote";
  session_filter = record {
    source_mac_address = codes "02:00:00:00:00:01";
    svlan = pos 1;
    cvlan = pos 2;
  };
  desired_state = record { shard = codes "shard-1" };
  network_connection = codes "nc-1";
}

abbrev pub session : SessionContext
session = record {
  name = codes "session-1";
  metadata = plain_metadata;
  spec = session_spec;
  status = record {
    current_state = record { user_plane_shard = codes "shard-1"; tsf_shard = codes "shard-2" };
  };
}

abbrev pub gateway : ServiceGateway
gateway = record { name = codes "sg-1"; metadata = metadata }

abbrev pub user_plane : ServiceGatewayUserPlane
user_plane = record {
  name = codes "sgup-1";
  service_gateway_name = codes "sg-1";
  metadata = plain_metadata;
  maintenance = record { maintenance_req = pos 2 };
  spec = record {
    max_session_count = pos 32768;
    max_shards = pos 8;
    supported_service_group = codes "gold" ∷ codes "silver" ∷ [];
    default_endpoint = vtep_endpoint;
  };
  status = record { allocated_session_count = pos 12; allocated_shards = pos 2 };
}

abbrev pub steering_function : TrafficSteeringFunction
steering_function = record {
  name = codes "tsf-1";
  metadata = metadata;
  spec = record { default_endpoint = port_endpoint };
}

-- A map that keeps its entries in the order of assignment.
module _ {V : Type 0} where
  unfoldable pub add_entry : Bytes → V → List (Bytes × V) → List (Bytes × V)
  add_entry k v m = (k, v) ∷ m

  pub lookup-add_entry :
      (j k : Bytes) (v : V) (m : List (Bytes × V))
      → lookup j (add_entry k v m) ≡ (if same_bytes k j then some v else lookup j m)
  unfolding add_entry lookup
  lookup-add_entry j k v m = refl

instance abbrev pub texts_map : MapField Bytes
texts_map = record { insert = add_entry; lookup-insert = lookup-add_entry }

instance abbrev pub flags_map : MapField Bool
flags_map = record { insert = add_entry; lookup-insert = lookup-add_entry }

-- A server that keeps a list of items, streams all of them, and never fails.
abbrev pub server : Stub (List Item)
server = record {
  create_v1 = λ item items. (item ∷ items, item, true);
  update_v1 = λ req items. (req.item ∷ items, req.item, true);
  delete_v1 = λ name items. ([], name, true);
  lookup_v1 = λ spec items. (items, record default_session_context { spec = spec }, true);
  read_v1 = λ req items. (items, record { items = items; finish = λ n. true });
}

abbrev pub network : Bytes → Stub (List Item)
network addr = server

abbrev pub stored : List Item
stored = Item.session_context session ∷ Item.shard shard ∷ Item.unset ∷ []
