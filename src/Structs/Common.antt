-- ===== src/Structs/Common.antt =====
-- upsf_key_value_t, upsf_metadata_t, upsf_maintenance_t, upsf_session_filter_t and the structures of
-- the transport end points. An enumeration that is cast from a message holds the integer.
use libupsf.Prelude.{List, ℤ, pos, replicate}
use libupsf.Text.{UpsfString, zero_string}
use libupsf.Arrays.{max_num}

pub record KeyValue : Type 0 where
  pub key : UpsfString
  pub value : UpsfString

pub record UpsfMetadata : Type 0 where
  pub description : UpsfString
  pub derived_state : ℤ

pub record UpsfMaintenance : Type 0 where
  pub maintenance_req : ℤ

pub record UpsfSessionFilter : Type 0 where
  pub source_mac_address : UpsfString
  pub svlan : ℤ
  pub cvlan : ℤ

pub record UpsfVtep : Type 0 where
  pub ip_address : UpsfString
  pub udp_port : ℤ
  pub vni : ℤ

pub record UpsfPortVlan : Type 0 where
  pub logical_port : UpsfString
  pub svlan : ℤ
  pub cvlan : ℤ

pub record UpsfL2vpn : Type 0 where
  pub vpn_id : ℤ

abbrev pub zero_key_value : KeyValue
zero_key_value = record { key = zero_string; value = zero_string }

unfoldable pub zero_strings : List UpsfString
zero_strings = replicate max_num zero_string

unfoldable pub zero_key_values : List KeyValue
zero_key_values = replicate max_num zero_key_value

unfoldable pub zero_metadata : UpsfMetadata
zero_metadata = record { description = zero_string; derived_state = pos 0 }

abbrev pub zero_maintenance : UpsfMaintenance
zero_maintenance = record { maintenance_req = pos 0 }

unfoldable pub zero_session_filter : UpsfSessionFilter
zero_session_filter = record { source_mac_address = zero_string; svlan = pos 0; cvlan = pos 0 }

unfoldable pub zero_vtep : UpsfVtep
zero_vtep = record { ip_address = zero_string; udp_port = pos 0; vni = pos 0 }

unfoldable pub zero_port_vlan : UpsfPortVlan
zero_port_vlan = record { logical_port = zero_string; svlan = pos 0; cvlan = pos 0 }

abbrev pub zero_l2vpn : UpsfL2vpn
zero_l2vpn = record { vpn_id = pos 0 }
