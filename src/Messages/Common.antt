-- ===== src/Messages/Common.antt =====
-- Messages that stand inside several items: MetaData, Maintenance, SessionFilter and the transport
-- end points.
use libupsf.Prelude.{[], ℤ, pos}
use libupsf.Text.{Bytes}

-- google.protobuf.Timestamp; the library never looks into it.
pub record Timestamp : Type 0 where
  pub seconds : ℤ
  pub nanos : ℤ

pub record MetaData : Type 0 where
  pub description : Bytes
  pub created : Timestamp
  pub last_updated : Timestamp
  pub derived_state : ℤ

pub record Maintenance : Type 0 where
  pub maintenance_req : ℤ

pub record SessionFilter : Type 0 where
  pub source_mac_address : Bytes
  pub svlan : ℤ
  pub cvlan : ℤ

pub record L2vpn : Type 0 where
  pub vpn_id : ℤ

pub record PortVlan : Type 0 where
  pub logical_port : Bytes
  pub svlan : ℤ
  pub cvlan : ℤ

pub record Vtep : Type 0 where
  pub ip_address : Bytes
  pub udp_port : ℤ
  pub vni : ℤ

abbrev pub no_time : Timestamp
no_time = record { seconds = pos 0; nanos = pos 0 }

abbrev pub default_meta_data : MetaData
default_meta_data = record {
  description = [];
  created = no_time;
  last_updated = no_time;
  derived_state = pos 0;
}

abbrev pub default_maintenance : Maintenance
default_maintenance = record { maintenance_req = pos 0 }

abbrev pub default_session_filter : SessionFilter
default_session_filter = record { source_mac_address = []; svlan = pos 0; cvlan = pos 0 }

abbrev pub default_l2vpn : L2vpn
default_l2vpn = record { vpn_id = pos 0 }

abbrev pub default_port_vlan : PortVlan
default_port_vlan = record { logical_port = []; svlan = pos 0; cvlan = pos 0 }

abbrev pub default_vtep : Vtep
default_vtep = record { ip_address = []; udp_port = pos 0; vni = pos 0 }
