-- ===== src/Messages/Connection.antt =====
-- Message NetworkConnection with its parts.
use libupsf.Prelude.{Bool, List, [], ℤ, pos}
use libupsf.Text.{Bytes}
use libupsf.Messages.Common.{
  MetaData, Maintenance, Vtep, L2vpn, PortVlan, default_meta_data, default_maintenance,
}

pub data TransportEndpoint : Type 0 where
  unset : TransportEndpoint
  vtep : Vtep → TransportEndpoint
  l2vpn : L2vpn → TransportEndpoint
  port_vlan : PortVlan → TransportEndpoint

pub record Endpoint : Type 0 where
  pub endpoint_name : Bytes
  pub transport_endpoint : TransportEndpoint

pub record SsPtpSpec : Type 0 where
  pub sgup_endpoint : List Endpoint
  pub tsf_endpoint : Endpoint

pub record SsMptpSpec : Type 0 where
  pub sgup_endpoint : List Endpoint
  pub tsf_endpoint : List Endpoint

pub record MsPtpSpec : Type 0 where
  pub sgup_endpoint : Endpoint
  pub tsf_endpoint : Endpoint

pub record MsMptpSpec : Type 0 where
  pub sgup_endpoint : Endpoint
  pub tsf_endpoint : List Endpoint

pub data NcSpec : Type 0 where
  unset : NcSpec
  ss_ptp : SsPtpSpec → NcSpec
  ss_mptpc : SsMptpSpec → NcSpec
  ms_ptp : MsPtpSpec → NcSpec
  ms_mptp : MsMptpSpec → NcSpec

pub record NetworkConnectionSpec : Type 0 where
  pub maximum_supported_quality : ℤ
  pub nc_spec : NcSpec

pub record NetworkConnectionStatus : Type 0 where
  pub nc_active : List (Bytes × Bool)
  pub allocated_shards : ℤ

pub record NetworkConnection : Type 0 where
  pub name : Bytes
  pub metadata : MetaData
  pub maintenance : Maintenance
  pub spec : NetworkConnectionSpec
  pub status : NetworkConnectionStatus

abbrev pub default_endpoint : Endpoint
default_endpoint = record { endpoint_name = []; transport_endpoint = TransportEndpoint.unset }

abbrev pub default_nc_spec : NetworkConnectionSpec
default_nc_spec = record { maximum_supported_quality = pos 0; nc_spec = NcSpec.unset }

abbrev pub default_nc_status : NetworkConnectionStatus
default_nc_status = record { nc_active = []; allocated_shards = pos 0 }

abbrev pub default_network_connection : NetworkConnection
default_network_connection = record {
  name = [];
  metadata = default_meta_data;
  maintenance = default_maintenance;
  spec = default_nc_spec;
  status = default_nc_status;
}
