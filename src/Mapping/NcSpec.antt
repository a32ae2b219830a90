-- ===== src/Mapping/NcSpec.antt =====
-- The union of a network connection's specification in upsf/upsf_c_mapping.cpp.
use libupsf.Prelude.{Bool, true, false, List, [], ◌∷◌, ◌++◌, Option, some, length, ◌>>=◌}
use libupsf.Arrays.{clamp, fill, collect}
use libupsf.Messages.{
  NetworkConnectionSpec, NcSpec, SsPtpSpec, SsMptpSpec, MsPtpSpec, MsMptpSpec, Endpoint,
  default_endpoint,
}
use libupsf.Structs.{
  UpsfNcSpec, NcSpecType, NcSpecUnion, UpsfSsPtpSpec, UpsfSsMptpSpec, UpsfMsPtpSpec, UpsfMsMptpSpec,
  zero_nc_spec, zero_ss_ptp, zero_ss_mptp, zero_ms_ptp, zero_ms_mptp, read_ss_ptp,
  read_ss_ptp_sgup_endpoint, read_ss_mptp, read_ms_ptp, read_ms_mptp,
}
use libupsf.Mapping.Endpoint.{endpoint_to_proto, new_endpoint, put_endpoint}

ss_ptp_to_c : SsPtpSpec → UpsfSsPtpSpec
ss_ptp_to_c from =
    let to = zero_ss_ptp in
    let size = clamp (length from.sgup_endpoint) in
    record to {
      sgup_endpoint_size = size;
      sgup_endpoint = fill put_endpoint size from.sgup_endpoint to.sgup_endpoint;
      tsf_endpoint = put_endpoint from.tsf_endpoint to.tsf_endpoint;
    }

ss_mptp_to_c : SsMptpSpec → UpsfSsMptpSpec
ss_mptp_to_c from =
    let to = zero_ss_mptp in
    let sgup_size = clamp (length from.sgup_endpoint) in
    let tsf_size = clamp (length from.tsf_endpoint) in
    record to {
      sgup_endpoint_size = sgup_size;
      sgup_endpoint = fill put_endpoint sgup_size from.sgup_endpoint to.sgup_endpoint;
      tsf_endpoint_size = tsf_size;
      tsf_endpoint = fill put_endpoint tsf_size from.tsf_endpoint to.tsf_endpoint;
    }

ms_ptp_to_c : MsPtpSpec → UpsfMsPtpSpec
ms_ptp_to_c from =
    let to = zero_ms_ptp in
    record to {
      sgup_endpoint = put_endpoint from.sgup_endpoint to.sgup_endpoint;
      tsf_endpoint = put_endpoint from.tsf_endpoint to.tsf_endpoint;
    }

ms_mptp_to_c : MsMptpSpec → UpsfMsMptpSpec
ms_mptp_to_c from =
    let to = zero_ms_mptp in
    let size = clamp (length from.tsf_endpoint) in
    record to {
      sgup_endpoint = put_endpoint from.sgup_endpoint to.sgup_endpoint;
      tsf_endpoint_size = size;
      tsf_endpoint = fill put_endpoint size from.tsf_endpoint to.tsf_endpoint;
    }

-- The branches on the member that the message holds; without one, type and union stay.
nc_union_to_c : NcSpec → UpsfNcSpec → UpsfNcSpec
nc_union_to_c NcSpec.unset to = to
nc_union_to_c (NcSpec.ss_ptp s) to = record to {
  nc_spec_type = NcSpecType.ss_ptp;
  nc_spec = NcSpecUnion.ss_ptp (ss_ptp_to_c s);
}
nc_union_to_c (NcSpec.ss_mptpc s) to = record to {
  nc_spec_type = NcSpecType.ss_mptp;
  nc_spec = NcSpecUnion.ss_mptp (ss_mptp_to_c s);
}
nc_union_to_c (NcSpec.ms_ptp s) to = record to {
  nc_spec_type = NcSpecType.ms_ptp;
  nc_spec = NcSpecUnion.ms_ptp (ms_ptp_to_c s);
}
nc_union_to_c (NcSpec.ms_mptp s) to = record to {
  nc_spec_type = NcSpecType.ms_mptp;
  nc_spec = NcSpecUnion.ms_mptp (ms_mptp_to_c s);
}

unfoldable pub nc_spec_to_c : NetworkConnectionSpec → UpsfNcSpec
unfolding zero_nc_spec zero_ss_ptp zero_ss_mptp zero_ms_ptp zero_ms_mptp ss_ptp_to_c ss_mptp_to_c
    ms_ptp_to_c ms_mptp_to_c nc_union_to_c
nc_spec_to_c from =
    nc_union_to_c from.nc_spec
      (record zero_nc_spec { maximum_supported_quality = from.maximum_supported_quality })

-- mutable_ss_ptp() and its like: the member if the message holds it, and a new one if not.
mutable_ss_ptp : NcSpec → SsPtpSpec
mutable_ss_ptp (NcSpec.ss_ptp s) = s
mutable_ss_ptp _ = record { sgup_endpoint = []; tsf_endpoint = default_endpoint }

unfoldable pub mutable_ss_mptpc : NcSpec → SsMptpSpec
mutable_ss_mptpc (NcSpec.ss_mptpc s) = s
mutable_ss_mptpc _ = record { sgup_endpoint = []; tsf_endpoint = [] }

mutable_ms_ptp : NcSpec → MsPtpSpec
mutable_ms_ptp (NcSpec.ms_ptp s) = s
mutable_ms_ptp _ = record { sgup_endpoint = default_endpoint; tsf_endpoint = default_endpoint }

mutable_ms_mptp : NcSpec → MsMptpSpec
mutable_ms_mptp (NcSpec.ms_mptp s) = s
mutable_ms_mptp _ = record { sgup_endpoint = default_endpoint; tsf_endpoint = [] }

-- mutable_ss_mptpc()->add_sgup_endpoint() for each end point; with none, the member is not touched.
unfoldable pub add_sgup_endpoints : List Endpoint → NcSpec → NcSpec
add_sgup_endpoints [] to = to
add_sgup_endpoints (e ∷ es) to =
    let s = mutable_ss_mptpc to in
    add_sgup_endpoints es (NcSpec.ss_mptpc (record s { sgup_endpoint = s.sgup_endpoint ++ e ∷ [] }))

unfoldable pub add_tsf_endpoints : List Endpoint → NcSpec → NcSpec
add_tsf_endpoints [] to = to
add_tsf_endpoints (e ∷ es) to =
    let s = mutable_ss_mptpc to in
    add_tsf_endpoints es (NcSpec.ss_mptpc (record s { tsf_endpoint = s.tsf_endpoint ++ e ∷ [] }))

-- The switch on the type of the network connection.
nc_union_to_proto : NcSpecType → NcSpecUnion → NcSpec → Option (NcSpec × Bool)
nc_union_to_proto NcSpecType.ss_ptp from to = do
  c ← read_ss_ptp from
  sgup ← collect new_endpoint c.sgup_endpoint_size c.sgup_endpoint
  let s = mutable_ss_ptp to
  tsf ← endpoint_to_proto c.tsf_endpoint s.tsf_endpoint
  some (
    NcSpec.ss_ptp (record { sgup_endpoint = s.sgup_endpoint ++ sgup; tsf_endpoint = tsf.0 }),
    true,
  )
nc_union_to_proto NcSpecType.ss_mptp from to = do
  c ← read_ss_mptp from
  array ← read_ss_ptp_sgup_endpoint from
  sgup ← collect new_endpoint c.sgup_endpoint_size array
  tsf ← collect new_endpoint c.tsf_endpoint_size c.tsf_endpoint
  some (add_tsf_endpoints tsf (add_sgup_endpoints sgup to), true)
nc_union_to_proto NcSpecType.ms_ptp from to = do
  c ← read_ms_ptp from
  let s = mutable_ms_ptp to
  sgup ← endpoint_to_proto c.sgup_endpoint s.sgup_endpoint
  tsf ← endpoint_to_proto c.tsf_endpoint s.tsf_endpoint
  some (NcSpec.ms_ptp (record { sgup_endpoint = sgup.0; tsf_endpoint = tsf.0 }), true)
nc_union_to_proto NcSpecType.ms_mptp from to = do
  c ← read_ms_mptp from
  let s = mutable_ms_mptp to
  sgup ← endpoint_to_proto c.sgup_endpoint s.sgup_endpoint
  tsf ← collect new_endpoint c.tsf_endpoint_size c.tsf_endpoint
  some (
    NcSpec.ms_mptp (record { sgup_endpoint = sgup.0; tsf_endpoint = s.tsf_endpoint ++ tsf }),
    true,
  )
nc_union_to_proto NcSpecType.max from to = some (to, false)

unfoldable pub nc_spec_to_proto :
    UpsfNcSpec → NetworkConnectionSpec → Option (NetworkConnectionSpec × Bool)
unfolding nc_union_to_proto mutable_ss_ptp mutable_ms_ptp mutable_ms_mptp read_ss_ptp
    read_ss_ptp_sgup_endpoint read_ss_mptp read_ms_ptp read_ms_mptp
nc_spec_to_proto from to = do
  r ← nc_union_to_proto from.nc_spec_type from.nc_spec to.nc_spec
  some
      (record to { maximum_supported_quality = from.maximum_supported_quality; nc_spec = r.0 }, r.1)
