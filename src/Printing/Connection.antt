-- ===== src/Printing/Connection.antt =====
-- The streams of end points and network connections.
use libupsf.Prelude.{Bool, List, [], ◌∷◌, Option, some, ◌>>=◌, if◌then◌else◌}
use libupsf.Text.{Bytes, until_nul}
use libupsf.Messages.{
  Timestamp, Vtep, PortVlan, L2vpn, Endpoint, TransportEndpoint, SsPtpSpec, SsMptpSpec, MsPtpSpec,
  MsMptpSpec, NcSpec, NetworkConnectionSpec, NetworkConnectionStatus, NetworkConnection,
}
use libupsf.Slots.{show_int}
use libupsf.Printing.Common.{codes, texts, print_indexed, print_entries, print_metadata}

unfoldable pub print_vtep : Vtep → Bytes
unfolding texts until_nul
print_vtep m = texts (
    codes "Vtep("
    ∷ codes "ip_address="
    ∷ until_nul m.ip_address
    ∷ codes ", "
    ∷ codes "udp_port="
    ∷ show_int m.udp_port
    ∷ codes ", "
    ∷ codes "vni="
    ∷ show_int m.vni
    ∷ codes ")"
    ∷ [])

unfoldable pub print_port_vlan : PortVlan → Bytes
unfolding texts until_nul
print_port_vlan m = texts (
    codes "PortVlan("
    ∷ codes "logical_port="
    ∷ until_nul m.logical_port
    ∷ codes ", "
    ∷ codes "svlan="
    ∷ show_int m.svlan
    ∷ codes ", "
    ∷ codes "cvlan="
    ∷ show_int m.cvlan
    ∷ codes ")"
    ∷ [])

unfoldable pub print_l2vpn : L2vpn → Bytes
unfolding texts
print_l2vpn m = texts (codes "L2vpn(" ∷ codes "vpn_id=" ∷ show_int m.vpn_id ∷ codes ")" ∷ [])

unfoldable pub print_transport : TransportEndpoint → Bytes
unfolding print_vtep print_port_vlan print_l2vpn
print_transport TransportEndpoint.unset = []
print_transport (TransportEndpoint.vtep v) = print_vtep v
print_transport (TransportEndpoint.l2vpn v) = print_l2vpn v
print_transport (TransportEndpoint.port_vlan v) = print_port_vlan v

unfoldable pub print_endpoint : Endpoint → Bytes
unfolding texts until_nul print_transport
print_endpoint m = texts (
    codes "Endpoint("
    ∷ codes "name="
    ∷ until_nul m.endpoint_name
    ∷ codes ", "
    ∷ print_transport m.transport_endpoint
    ∷ codes ")"
    ∷ [])

unfoldable pub print_endpoints : List Endpoint → Bytes
unfolding print_indexed
print_endpoints es = print_indexed print_endpoint 0 es

unfoldable pub print_ss_ptp : SsPtpSpec → Bytes
unfolding texts
print_ss_ptp m = texts (
    codes "SsPtpSpec("
    ∷ codes "SgUpEndpoints("
    ∷ print_endpoints m.sgup_endpoint
    ∷ codes "), "
    ∷ codes "TsfEndpoint("
    ∷ print_endpoint m.tsf_endpoint
    ∷ codes ")"
    ∷ codes ")"
    ∷ [])

unfoldable pub print_ss_mptp : SsMptpSpec → Bytes
unfolding texts
print_ss_mptp m = texts (
    codes "SsMptpSpec("
    ∷ codes "SgUpEndpoints("
    ∷ print_endpoints m.sgup_endpoint
    ∷ codes "), "
    ∷ codes "TsfEndpoints("
    ∷ print_endpoints m.tsf_endpoint
    ∷ codes ")"
    ∷ codes ")"
    ∷ [])

unfoldable pub print_ms_ptp : MsPtpSpec → Bytes
unfolding texts
print_ms_ptp m = texts (
    codes "MsPtpSpec("
    ∷ codes "SgUpEndpoint("
    ∷ print_endpoint m.sgup_endpoint
    ∷ codes "), "
    ∷ codes "TsfEndpoint("
    ∷ print_endpoint m.tsf_endpoint
    ∷ codes ")"
    ∷ codes ")"
    ∷ [])

unfoldable pub print_ms_mptp : MsMptpSpec → Bytes
unfolding texts
print_ms_mptp m = texts (
    codes "MsMptpSpec("
    ∷ codes "SgUpEndpoint("
    ∷ print_endpoint m.sgup_endpoint
    ∷ codes "), "
    ∷ codes "TsfEndpoints("
    ∷ print_endpoints m.tsf_endpoint
    ∷ codes ")"
    ∷ codes ")"
    ∷ [])

unfoldable pub print_nc_union : NcSpec → Bytes
unfolding texts
print_nc_union NcSpec.unset = []
print_nc_union (NcSpec.ss_ptp s) = texts (codes "SsPtp=" ∷ print_ss_ptp s ∷ [])
print_nc_union (NcSpec.ss_mptpc s) = texts (codes "SsMptp=" ∷ print_ss_mptp s ∷ [])
print_nc_union (NcSpec.ms_ptp s) = texts (codes "MsPtp=" ∷ print_ms_ptp s ∷ [])
print_nc_union (NcSpec.ms_mptp s) = texts (codes "MsMptp=" ∷ print_ms_mptp s ∷ [])

unfoldable pub print_nc_spec : NetworkConnectionSpec → Bytes
unfolding texts
print_nc_spec m = texts (
    codes "Spec("
    ∷ codes "max_supp_quality="
    ∷ show_int m.maximum_supported_quality
    ∷ codes ", "
    ∷ print_nc_union m.nc_spec
    ∷ codes ")"
    ∷ [])

unfoldable pub print_nc_status : NetworkConnectionStatus → Bytes
unfolding texts print_entries
print_nc_status m = texts (
    codes "Status("
    ∷ codes "nc_active("
    ∷ print_entries (λ (b : Bool). if b then codes "1" else codes "0") m.nc_active
    ∷ codes "), "
    ∷ codes "allocated_shards="
    ∷ show_int m.allocated_shards
    ∷ codes ", "
    ∷ codes ")"
    ∷ [])

module _ (time : Timestamp → Bytes) where
  unfoldable pub print_network_connection : NetworkConnection → Option Bytes
  unfolding texts until_nul
  print_network_connection m = do
    metadata ← print_metadata time m.metadata
    some (
        texts (
          codes "NetworkConnection("
          ∷ codes "name="
          ∷ until_nul m.name
          ∷ codes ", "
          ∷ metadata
          ∷ codes ", "
          ∷ print_nc_spec m.spec
          ∷ codes ", "
          ∷ print_nc_status m.status
          ∷ codes ")"
          ∷ []))
