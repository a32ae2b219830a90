-- ===== src/CppExample/Requests.antt =====
-- The object of class UpsfCppExample, and the messages that its methods send with an update.
use libupsf.Prelude.{Bool, true, List, [], ◌∷◌, pos}
use libupsf.Text.{Bytes}
use libupsf.MapField.{MapField, insert_all}
use libupsf.Messages.{
  MetaData, Endpoint, TransportEndpoint, NcSpec, NetworkConnection, Shard, SessionContext,
  ServiceGateway, ServiceGatewayUserPlane, TrafficSteeringFunction, default_meta_data,
  default_user_plane, default_steering_function, default_shard, default_shard_status,
  default_session_context, default_session_spec, default_network_connection,
}
use libupsf.Printing.Common.{codes}

-- `up_names` is a std::map: its entries in the order of their keys. The client is a parameter of the
-- methods.
pub record UpsfCppExample : Type 0 where
  pub srvaddr : Bytes
  pub sg_name : Bytes
  pub sg_desc : Bytes
  pub up_names : List (Bytes × Bytes)
  pub sgrp_name : Bytes
  pub sgrp_desc : Bytes
  pub sctx_name : Bytes
  pub sctx_desc : Bytes
  pub tsf_name : Bytes
  pub tsf_desc : Bytes
  pub nc_name : Bytes
  pub nc_desc : Bytes

-- The constructor with the arguments that `main` gives; the descriptions have default values.
unfoldable pub new_example : Bytes → Bytes → Bytes → Bytes → Bytes → Bytes → UpsfCppExample
new_example srvaddr sg_name tsf_name sgrp_name sctx_name nc_name = record {
  srvaddr = srvaddr;
  sg_name = sg_name;
  sg_desc = codes "this is my service gateway";
  up_names =
      (codes "my-up-a", codes "this is my service gateway user plane A")
      ∷ (codes "my-up-b", codes "this is my service gateway user plane B")
      ∷ [];
  sgrp_name = sgrp_name;
  sgrp_desc = codes "this is my subscriber group";
  sctx_name = sctx_name;
  sctx_desc = codes "this is my session context";
  tsf_name = tsf_name;
  tsf_desc = codes "this is my traffic steering function";
  nc_name = nc_name;
  nc_desc = codes "this is my network connection";
}

-- set_description; set_derived_state(DerivedState::updating)
abbrev updating : Bytes → MetaData
updating desc = record default_meta_data { description = desc; derived_state = pos 3 }

abbrev vtep : Bytes → Bytes → Endpoint
vtep name ip = record {
  endpoint_name = name;
  transport_endpoint =
      TransportEndpoint.vtep (record { ip_address = ip; udp_port = pos 4789; vni = pos 12345 });
}

module _ (e : UpsfCppExample) where
  unfoldable pub sg_request : Bytes → ServiceGateway
  sg_request sg_name = record {
    name = sg_name;
    metadata = record default_meta_data { description = e.sg_desc; derived_state = pos 2 };
  }

  unfoldable pub up_request : Bytes → Bytes → ServiceGatewayUserPlane
  up_request up_name up_desc = record default_user_plane {
    name = up_name;
    service_gateway_name = e.sg_name;
    metadata = updating up_desc;
    spec = record {
      max_session_count = pos 128;
      max_shards = pos 16;
      supported_service_group = codes "ssg-1" ∷ codes "ssg-2" ∷ [];
      default_endpoint = vtep (codes "ep-1") (codes "192.168.56.11");
    };
    status = record { allocated_session_count = pos 7; allocated_shards = pos 1 };
  }

  unfoldable pub tsf_request : Bytes → TrafficSteeringFunction
  tsf_request tsf_name = record default_steering_function {
    name = tsf_name;
    metadata = updating e.tsf_desc;
    spec = record { default_endpoint = vtep (codes "ep-0") (codes "192.168.30.11") };
  }

  unfoldable pub sctx_request : Bytes → SessionContext
  sctx_request sctx_name = record default_session_context {
    name = sctx_name;
    metadata = updating e.sctx_desc;
    spec = record default_session_spec {
      traffic_steering_function = codes "tsf-a";
      required_service_group = codes "rsg-1" ∷ codes "rsg-2" ∷ [];
      required_quality = pos 3;
      circuit_id = codes "circuit-id";
      remote_id = codes "remote-id";
      session_filter = record {
        source_mac_address = codes "00:11:22:33:44:55";
        svlan = pos 50;
        cvlan = pos 100;
      };
      desired_state = record { shard = e.sgrp_name };
    };
    status = record {
      current_state = record { user_plane_shard = codes "up-a"; tsf_shard = codes "tsf-a" };
    };
  }

  unfoldable pub sgrp_request : ⦃texts : MapField Bytes⦄ → Bytes → Shard
  unfolding insert_all
  sgrp_request sgrp_name = record default_shard {
    name = sgrp_name;
    metadata = updating e.sgrp_desc;
    spec = record {
      max_session_count = pos 4096;
      virtual_mac = codes "22:22:22:22:22:22";
      desired_state = record {
        service_gateway_user_plane = codes "up-a";
        network_connection = codes "net-conn-1" ∷ codes "net-conn-2" ∷ [];
      };
      prefix = codes "192.168.2.0/24" ∷ codes "192.168.3.0/24" ∷ [];
    };
    status = record default_shard_status {
      allocated_session_count = pos 64;
      current_state = record {
        service_gateway_user_plane = codes "up-b";
        tsf_network_connection =
            insert_all ((codes "key1", codes "value1") ∷ (codes "key2", codes "value2") ∷ []) [];
      };
    };
    mbb = record { mbb_state = pos 2 };
  }

  unfoldable pub nc_request : ⦃flags : MapField Bool⦄ → Bytes → NetworkConnection
  unfolding insert_all
  nc_request nc_name = record default_network_connection {
    name = nc_name;
    metadata = updating e.nc_desc;
    spec = record {
      maximum_supported_quality = pos 7;
      nc_spec = NcSpec.ss_ptp (record {
        sgup_endpoint =
            vtep (codes "vxlan0") (codes "1.1.1.1")
            ∷ record {
              endpoint_name = codes "l2vpn0";
              transport_endpoint = TransportEndpoint.l2vpn (record { vpn_id = pos 3333 });
            }
            ∷ record {
              endpoint_name = codes "port0";
              transport_endpoint =
                  TransportEndpoint.port_vlan
                    (record { logical_port = codes "eth0"; svlan = pos 50; cvlan = pos 0 });
            }
            ∷ [];
        tsf_endpoint = vtep (codes "vxl100") (codes "192.168.30.11");
      });
    };
    status = record {
      nc_active =
          insert_all
            ((codes "net-conn-1", true)
              ∷ (codes "net-conn-2", true)
              ∷ (codes "net-conn-3", true)
              ∷ [])
            [];
      allocated_shards = pos 97;
    };
  }
