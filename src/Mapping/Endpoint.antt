-- ===== src/Mapping/Endpoint.antt =====
-- The parts of items in upsf/upsf_c_mapping.cpp: names with metadata, session filters and end points.
use libupsf.Prelude.{Bool, true, false, Option, some, ◌>>=◌}
use libupsf.Text.{store, load}
use libupsf.Messages.{
  MetaData, SessionFilter, Vtep, L2vpn, PortVlan, Endpoint, TransportEndpoint, default_vtep,
  default_l2vpn, default_port_vlan, default_endpoint,
}
use libupsf.Structs.{
  UpsfMetadata, UpsfSessionFilter, UpsfVtep, UpsfL2vpn, UpsfPortVlan, UpsfEndpoint, EpType, EpSpec,
  zero_metadata, zero_session_filter, zero_vtep, zero_l2vpn, zero_port_vlan, zero_endpoint,
  read_vtep, read_l2vpn, read_port_vlan,
}

-- The stanza on metadata: the times are not carried over.
unfoldable pub metadata_to_c : MetaData → UpsfMetadata
unfolding zero_metadata
metadata_to_c from = record zero_metadata {
  description = store from.description zero_metadata.description;
  derived_state = from.derived_state;
}

unfoldable pub metadata_to_proto : UpsfMetadata → MetaData → Option MetaData
metadata_to_proto from to = do
  description ← load from.description
  some (record to { description = description; derived_state = from.derived_state })

unfoldable pub session_filter_to_c : SessionFilter → UpsfSessionFilter
unfolding zero_session_filter
session_filter_to_c from = record zero_session_filter {
  source_mac_address = store from.source_mac_address zero_session_filter.source_mac_address;
  svlan = from.svlan;
  cvlan = from.cvlan;
}

unfoldable pub session_filter_to_proto : UpsfSessionFilter → SessionFilter → Option SessionFilter
session_filter_to_proto from to = do
  source_mac_address ← load from.source_mac_address
  some (record to {
    source_mac_address = source_mac_address;
    svlan = from.svlan;
    cvlan = from.cvlan;
  })

unfoldable pub vtep_to_c : Vtep → UpsfVtep
unfolding zero_vtep
vtep_to_c from = record zero_vtep {
  ip_address = store from.ip_address zero_vtep.ip_address;
  udp_port = from.udp_port;
  vni = from.vni;
}

unfoldable pub vtep_to_proto : UpsfVtep → Vtep → Option Vtep
vtep_to_proto from to = do
  ip_address ← load from.ip_address
  some (record to { ip_address = ip_address; udp_port = from.udp_port; vni = from.vni })

unfoldable pub l2vpn_to_c : L2vpn → UpsfL2vpn
l2vpn_to_c from = record zero_l2vpn { vpn_id = from.vpn_id }

unfoldable pub l2vpn_to_proto : UpsfL2vpn → L2vpn → L2vpn
l2vpn_to_proto from to = record to { vpn_id = from.vpn_id }

unfoldable pub port_vlan_to_c : PortVlan → UpsfPortVlan
unfolding zero_port_vlan
port_vlan_to_c from = record zero_port_vlan {
  logical_port = store from.logical_port zero_port_vlan.logical_port;
  svlan = from.svlan;
  cvlan = from.cvlan;
}

unfoldable pub port_vlan_to_proto : UpsfPortVlan → PortVlan → Option PortVlan
port_vlan_to_proto from to = do
  logical_port ← load from.logical_port
  some (record to { logical_port = logical_port; svlan = from.svlan; cvlan = from.cvlan })

-- The branches on the member that the message holds.
transport_to_c : TransportEndpoint → UpsfEndpoint → UpsfEndpoint × Bool
transport_to_c (TransportEndpoint.vtep v) to =
    (record to { ep_spec = EpSpec.vtep (vtep_to_c v); ep_type = EpType.vtep }, true)
transport_to_c (TransportEndpoint.l2vpn v) to =
    (record to { ep_spec = EpSpec.l2vpn (l2vpn_to_c v); ep_type = EpType.l2vpn }, true)
transport_to_c (TransportEndpoint.port_vlan v) to =
    (record to { ep_spec = EpSpec.port_vlan (port_vlan_to_c v); ep_type = EpType.port_vlan }, true)
transport_to_c TransportEndpoint.unset to = (to, false)

unfoldable pub endpoint_to_c : Endpoint → UpsfEndpoint × Bool
unfolding zero_endpoint transport_to_c vtep_to_c l2vpn_to_c port_vlan_to_c
endpoint_to_c from =
    transport_to_c from.transport_endpoint (record zero_endpoint {
      endpoint_name = store from.endpoint_name zero_endpoint.endpoint_name;
    })

-- mutable_vtep() and its like: the member if the message holds it, and a new one if not.
mutable_vtep : TransportEndpoint → Vtep
mutable_vtep (TransportEndpoint.vtep v) = v
mutable_vtep _ = default_vtep

mutable_l2vpn : TransportEndpoint → L2vpn
mutable_l2vpn (TransportEndpoint.l2vpn v) = v
mutable_l2vpn _ = default_l2vpn

mutable_port_vlan : TransportEndpoint → PortVlan
mutable_port_vlan (TransportEndpoint.port_vlan v) = v
mutable_port_vlan _ = default_port_vlan

-- The switch on the type of the end point.
ep_spec_to_proto : EpType → EpSpec → Endpoint → Option (Endpoint × Bool)
ep_spec_to_proto EpType.vtep from to = do
  c ← read_vtep from
  v ← vtep_to_proto c (mutable_vtep to.transport_endpoint)
  some (record to { transport_endpoint = TransportEndpoint.vtep v }, true)
ep_spec_to_proto EpType.l2vpn from to = do
  c ← read_l2vpn from
  let v = l2vpn_to_proto c (mutable_l2vpn to.transport_endpoint)
  some (record to { transport_endpoint = TransportEndpoint.l2vpn v }, true)
ep_spec_to_proto EpType.port_vlan from to = do
  c ← read_port_vlan from
  v ← port_vlan_to_proto c (mutable_port_vlan to.transport_endpoint)
  some (record to { transport_endpoint = TransportEndpoint.port_vlan v }, true)
ep_spec_to_proto EpType.unspecified from to = some (to, false)
ep_spec_to_proto EpType.max from to = some (to, false)

unfoldable pub endpoint_to_proto : UpsfEndpoint → Endpoint → Option (Endpoint × Bool)
unfolding ep_spec_to_proto vtep_to_proto l2vpn_to_proto port_vlan_to_proto mutable_vtep
    mutable_l2vpn mutable_port_vlan read_vtep read_l2vpn read_port_vlan
endpoint_to_proto from to = do
  endpoint_name ← load from.endpoint_name
  ep_spec_to_proto from.ep_type from.ep_spec (record to { endpoint_name = endpoint_name })

-- As it is called for an end point inside an item: the Boolean result is dropped.
unfoldable pub put_endpoint : Endpoint → UpsfEndpoint → UpsfEndpoint
put_endpoint from to = (endpoint_to_c from).0

-- As it is called for a new end point of a message.
unfoldable pub new_endpoint : UpsfEndpoint → Option Endpoint
new_endpoint from = do r ← endpoint_to_proto from default_endpoint; some r.0
