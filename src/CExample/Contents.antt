-- ===== src/CExample/Contents.antt =====
-- What the functions test_x of the example write into their items.
use libupsf.Prelude.{suc, ◌-◌, ◌∷◌, ◌++◌, pos, length, take, drop}
use libupsf.Text.{Bytes, UpsfString, max_string_size}
use libupsf.Structs.{
  EpType, EpSpec, UpsfServiceGateway, UpsfUserPlane, UpsfSteeringFunction, UpsfNetworkConnection,
  NcSpecType, NcSpecUnion, UpsfShard, UpsfSessionContext, zero_vtep, zero_port_vlan, zero_endpoint,
  zero_ss_ptp,
}
use libupsf.Printing.Common.{codes}

-- snprintf(to.str, sizeof(to.str), text): as much of the text as there is room for and a zero byte; what
-- stands behind stays, and so does the length field.
unfoldable pub snprintf : Bytes → UpsfString → UpsfString
snprintf text to =
    let t = take (max_string_size - 1) text in
    record to { str = t ++ 0 ∷ drop (suc (length t)) to.str }

unfoldable pub named_service_gateway : UpsfServiceGateway → UpsfServiceGateway
named_service_gateway c = record c { name = snprintf (codes "sg-test") c.name }

unfoldable pub updated_service_gateway : UpsfServiceGateway → UpsfServiceGateway
updated_service_gateway c = record c {
  name = snprintf (codes "sg-test") c.name;
  metadata = record c.metadata {
    description = snprintf (codes "sg-test description") c.metadata.description;
  };
}

unfoldable pub named_user_plane : UpsfUserPlane → UpsfUserPlane
named_user_plane c = record c { name = snprintf (codes "up-test") c.name }

-- The union was cleared, so its vtep is.
unfoldable pub created_user_plane : UpsfUserPlane → UpsfUserPlane
created_user_plane c = record c {
  name = snprintf (codes "up-test") c.name;
  service_gateway_name = snprintf (codes "sg-test") c.service_gateway_name;
  spec = record c.spec {
    default_endpoint = record {
      ep_type = EpType.vtep;
      endpoint_name = snprintf (codes "up-test") c.spec.default_endpoint.endpoint_name;
      ep_spec = EpSpec.vtep (record {
        ip_address = snprintf (codes "1.2.3.4") zero_vtep.ip_address;
        udp_port = pos 4789;
        vni = pos 1234;
      });
    };
  };
}

unfoldable pub updated_user_plane : UpsfUserPlane → UpsfUserPlane
updated_user_plane c = record c {
  name = snprintf (codes "up-test") c.name;
  metadata = record c.metadata {
    description = snprintf (codes "up-test description") c.metadata.description;
  };
}

unfoldable pub named_shard : UpsfShard → UpsfShard
named_shard c = record c { name = snprintf (codes "shard-test") c.name }

unfoldable pub updated_shard : UpsfShard → UpsfShard
updated_shard c = record c {
  name = snprintf (codes "shard-test") c.name;
  metadata = record c.metadata {
    description = snprintf (codes "shard-test description") c.metadata.description;
  };
}

unfoldable pub named_session_context : UpsfSessionContext → UpsfSessionContext
named_session_context c = record c { name = snprintf (codes "session-context-test") c.name }

unfoldable pub updated_session_context : UpsfSessionContext → UpsfSessionContext
updated_session_context c = record c {
  name = snprintf (codes "session-context-test") c.name;
  metadata = record c.metadata {
    description = snprintf (codes "session-context-test description") c.metadata.description;
  };
}

unfoldable pub named_steering_function : UpsfSteeringFunction → UpsfSteeringFunction
named_steering_function c = record c { name = snprintf (codes "tsf-test") c.name }

unfoldable pub created_steering_function : UpsfSteeringFunction → UpsfSteeringFunction
created_steering_function c = record c {
  name = snprintf (codes "tsf-test") c.name;
  spec = record {
    default_endpoint = record {
      endpoint_name = snprintf (codes "tsf-ep-name") c.spec.default_endpoint.endpoint_name;
      ep_type = EpType.l2vpn;
      ep_spec = EpSpec.l2vpn (record { vpn_id = pos 1234 });
    };
  };
}

unfoldable pub updated_steering_function : UpsfSteeringFunction → UpsfSteeringFunction
unfolding created_steering_function
updated_steering_function c = record (created_steering_function c) {
  metadata = record c.metadata {
    description = snprintf (codes "tsf-test description") c.metadata.description;
  };
}

unfoldable pub named_network_connection : UpsfNetworkConnection → UpsfNetworkConnection
named_network_connection c = record c { name = snprintf (codes "nc-test") c.name }

-- The item was cleared, so every element of its arrays is.
unfoldable pub created_network_connection : UpsfNetworkConnection → UpsfNetworkConnection
created_network_connection c = record c {
  name = snprintf (codes "nc-test") c.name;
  spec = record c.spec {
    nc_spec_type = NcSpecType.ss_ptp;
    nc_spec = NcSpecUnion.ss_ptp (record {
      sgup_endpoint_size = 2;
      sgup_endpoint =
          record {
            endpoint_name = snprintf (codes "sgup-ep-name-1") zero_endpoint.endpoint_name;
            ep_type = EpType.l2vpn;
            ep_spec = EpSpec.l2vpn (record { vpn_id = pos 1111 });
          }
          ∷ record {
            endpoint_name = snprintf (codes "sgup-ep-name-2") zero_endpoint.endpoint_name;
            ep_type = EpType.port_vlan;
            ep_spec = EpSpec.port_vlan (record {
              logical_port = snprintf (codes "eth0") zero_port_vlan.logical_port;
              svlan = pos 50;
              cvlan = pos 10;
            });
          }
          ∷ drop 2 zero_ss_ptp.sgup_endpoint;
      tsf_endpoint = record {
        endpoint_name = snprintf (codes "tsf-ep-name") zero_endpoint.endpoint_name;
        ep_type = EpType.vtep;
        ep_spec = EpSpec.vtep (record {
          ip_address = snprintf (codes "1.2.3.4") zero_vtep.ip_address;
          udp_port = pos 4789;
          vni = pos 1234;
        });
      };
    });
  };
}

unfoldable pub updated_network_connection : UpsfNetworkConnection → UpsfNetworkConnection
updated_network_connection c = record c {
  name = snprintf (codes "nc-test") c.name;
  metadata = record c.metadata {
    description = snprintf (codes "nc-test description") c.metadata.description;
  };
}
