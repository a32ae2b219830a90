-- ===== src/Structs/Connection.antt =====
-- upsf_network_connection_t with its parts. A union holds the member that was written last, or the
-- zeros of memset, which read as the zeroed member; to read another member than that is undefined,
-- but for the part that ss_ptp and ss_mptp have in common.
use libupsf.Prelude.{ℕ, List, Option, none, some, ℤ, pos, replicate}
use libupsf.Text.{UpsfString, zero_string}
use libupsf.Arrays.{max_num}
use libupsf.Structs.Common.{
  KeyValue, UpsfMetadata, UpsfMaintenance, UpsfVtep, UpsfL2vpn, UpsfPortVlan, zero_key_values,
  zero_metadata, zero_maintenance, zero_vtep, zero_l2vpn, zero_port_vlan,
}

pub data EpType : Type 0 where
  unspecified vtep l2vpn port_vlan max : EpType

pub data EpSpec : Type 0 where
  zeroed : EpSpec
  vtep : UpsfVtep → EpSpec
  l2vpn : UpsfL2vpn → EpSpec
  port_vlan : UpsfPortVlan → EpSpec

pub record UpsfEndpoint : Type 0 where
  pub endpoint_name : UpsfString
  pub ep_type : EpType
  pub ep_spec : EpSpec

pub record UpsfSsPtpSpec : Type 0 where
  pub sgup_endpoint : List UpsfEndpoint
  pub sgup_endpoint_size : ℕ
  pub tsf_endpoint : UpsfEndpoint

pub record UpsfSsMptpSpec : Type 0 where
  pub sgup_endpoint : List UpsfEndpoint
  pub sgup_endpoint_size : ℕ
  pub tsf_endpoint : List UpsfEndpoint
  pub tsf_endpoint_size : ℕ

pub record UpsfMsPtpSpec : Type 0 where
  pub sgup_endpoint : UpsfEndpoint
  pub tsf_endpoint : UpsfEndpoint

pub record UpsfMsMptpSpec : Type 0 where
  pub sgup_endpoint : UpsfEndpoint
  pub tsf_endpoint : List UpsfEndpoint
  pub tsf_endpoint_size : ℕ

pub data NcSpecType : Type 0 where
  ss_ptp ss_mptp ms_ptp ms_mptp max : NcSpecType

pub data NcSpecUnion : Type 0 where
  zeroed : NcSpecUnion
  ss_ptp : UpsfSsPtpSpec → NcSpecUnion
  ss_mptp : UpsfSsMptpSpec → NcSpecUnion
  ms_ptp : UpsfMsPtpSpec → NcSpecUnion
  ms_mptp : UpsfMsMptpSpec → NcSpecUnion

pub record UpsfNcSpec : Type 0 where
  pub maximum_supported_quality : ℤ
  pub nc_spec_type : NcSpecType
  pub nc_spec : NcSpecUnion

pub record UpsfNcStatus : Type 0 where
  pub nc_active : List KeyValue
  pub nc_active_size : ℕ
  pub allocated_shards : ℤ

pub record UpsfNetworkConnection : Type 0 where
  pub name : UpsfString
  pub metadata : UpsfMetadata
  pub maintenance : UpsfMaintenance
  pub spec : UpsfNcSpec
  pub status : UpsfNcStatus

unfoldable pub zero_endpoint : UpsfEndpoint
zero_endpoint = record {
  endpoint_name = zero_string;
  ep_type = EpType.unspecified;
  ep_spec = EpSpec.zeroed;
}

unfoldable pub zero_endpoints : List UpsfEndpoint
zero_endpoints = replicate max_num zero_endpoint

unfoldable pub zero_ss_ptp : UpsfSsPtpSpec
zero_ss_ptp = record {
  sgup_endpoint = zero_endpoints;
  sgup_endpoint_size = 0;
  tsf_endpoint = zero_endpoint;
}

unfoldable pub zero_ss_mptp : UpsfSsMptpSpec
zero_ss_mptp = record {
  sgup_endpoint = zero_endpoints;
  sgup_endpoint_size = 0;
  tsf_endpoint = zero_endpoints;
  tsf_endpoint_size = 0;
}

unfoldable pub zero_ms_ptp : UpsfMsPtpSpec
zero_ms_ptp = record { sgup_endpoint = zero_endpoint; tsf_endpoint = zero_endpoint }

unfoldable pub zero_ms_mptp : UpsfMsMptpSpec
zero_ms_mptp = record {
  sgup_endpoint = zero_endpoint;
  tsf_endpoint = zero_endpoints;
  tsf_endpoint_size = 0;
}

-- The enumerators with value 0 are UPSF_EP_TYPE_UNSPECIFIED and UPSF_NC_SPEC_TYPE_SS_PTP.
unfoldable pub zero_nc_spec : UpsfNcSpec
zero_nc_spec = record {
  maximum_supported_quality = pos 0;
  nc_spec_type = NcSpecType.ss_ptp;
  nc_spec = NcSpecUnion.zeroed;
}

unfoldable pub zero_nc_status : UpsfNcStatus
zero_nc_status = record {
  nc_active = zero_key_values;
  nc_active_size = 0;
  allocated_shards = pos 0;
}

unfoldable pub zero_network_connection : UpsfNetworkConnection
zero_network_connection = record {
  name = zero_string;
  metadata = zero_metadata;
  maintenance = zero_maintenance;
  spec = zero_nc_spec;
  status = zero_nc_status;
}

-- Reads of a union's members.
unfoldable pub read_vtep : EpSpec → Option UpsfVtep
read_vtep EpSpec.zeroed = some zero_vtep
read_vtep (EpSpec.vtep v) = some v
read_vtep (EpSpec.l2vpn v) = none
read_vtep (EpSpec.port_vlan v) = none

unfoldable pub read_l2vpn : EpSpec → Option UpsfL2vpn
read_l2vpn EpSpec.zeroed = some zero_l2vpn
read_l2vpn (EpSpec.vtep v) = none
read_l2vpn (EpSpec.l2vpn v) = some v
read_l2vpn (EpSpec.port_vlan v) = none

unfoldable pub read_port_vlan : EpSpec → Option UpsfPortVlan
read_port_vlan EpSpec.zeroed = some zero_port_vlan
read_port_vlan (EpSpec.vtep v) = none
read_port_vlan (EpSpec.l2vpn v) = none
read_port_vlan (EpSpec.port_vlan v) = some v

unfoldable pub read_ss_ptp : NcSpecUnion → Option UpsfSsPtpSpec
read_ss_ptp NcSpecUnion.zeroed = some zero_ss_ptp
read_ss_ptp (NcSpecUnion.ss_ptp s) = some s
read_ss_ptp (NcSpecUnion.ss_mptp s) = none
read_ss_ptp (NcSpecUnion.ms_ptp s) = none
read_ss_ptp (NcSpecUnion.ms_mptp s) = none

-- nc_spec.ss_ptp.sgup_endpoint, also where ss_mptp was written: both begin with that array.
unfoldable pub read_ss_ptp_sgup_endpoint : NcSpecUnion → Option (List UpsfEndpoint)
read_ss_ptp_sgup_endpoint NcSpecUnion.zeroed = some zero_endpoints
read_ss_ptp_sgup_endpoint (NcSpecUnion.ss_ptp s) = some s.sgup_endpoint
read_ss_ptp_sgup_endpoint (NcSpecUnion.ss_mptp s) = some s.sgup_endpoint
read_ss_ptp_sgup_endpoint (NcSpecUnion.ms_ptp s) = none
read_ss_ptp_sgup_endpoint (NcSpecUnion.ms_mptp s) = none

unfoldable pub read_ss_mptp : NcSpecUnion → Option UpsfSsMptpSpec
read_ss_mptp NcSpecUnion.zeroed = some zero_ss_mptp
read_ss_mptp (NcSpecUnion.ss_ptp s) = none
read_ss_mptp (NcSpecUnion.ss_mptp s) = some s
read_ss_mptp (NcSpecUnion.ms_ptp s) = none
read_ss_mptp (NcSpecUnion.ms_mptp s) = none

unfoldable pub read_ms_ptp : NcSpecUnion → Option UpsfMsPtpSpec
read_ms_ptp NcSpecUnion.zeroed = some zero_ms_ptp
read_ms_ptp (NcSpecUnion.ss_ptp s) = none
read_ms_ptp (NcSpecUnion.ss_mptp s) = none
read_ms_ptp (NcSpecUnion.ms_ptp s) = some s
read_ms_ptp (NcSpecUnion.ms_mptp s) = none

unfoldable pub read_ms_mptp : NcSpecUnion → Option UpsfMsMptpSpec
read_ms_mptp NcSpecUnion.zeroed = some zero_ms_mptp
read_ms_mptp (NcSpecUnion.ss_ptp s) = none
read_ms_mptp (NcSpecUnion.ss_mptp s) = none
read_ms_mptp (NcSpecUnion.ms_ptp s) = none
read_ms_mptp (NcSpecUnion.ms_mptp s) = some s
