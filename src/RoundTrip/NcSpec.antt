-- ===== src/RoundTrip/NcSpec.antt =====
-- The specification of a network connection there and back.
use mathlib.Core.List.{append_assoc, append-nil}
use libupsf.Prelude.{◌≡◌, refl, true, false, List, [], ◌∷◌, ◌++◌, map, some, take, length}
use libupsf.Text.{zero_string, load}
use libupsf.Arrays.{max_num, clamp, collect, fill}
use libupsf.Arrays.Loops.{counted_round_trip}
use libupsf.Messages.{
  Endpoint, NcSpec, SsMptpSpec, NetworkConnectionSpec, default_endpoint, default_nc_spec,
}
use libupsf.Structs.{zero_endpoint, zero_endpoints}
use libupsf.Mapping.Endpoint.{endpoint_to_proto, new_endpoint, put_endpoint}
use libupsf.Mapping.NcSpec.{
  nc_spec_to_c, nc_spec_to_proto, add_sgup_endpoints, add_tsf_endpoints, mutable_ss_mptpc,
}
use libupsf.RoundTrip.Endpoint.{
  normalise_endpoint, put_endpoint_round_trip, new_endpoint_round_trip,
}

abbrev pub normalise_endpoints : List Endpoint → List Endpoint
normalise_endpoints es = map normalise_endpoint (take max_num es)

-- The member is made by its first end point.
abbrev pub mptp_of : List Endpoint → List Endpoint → NcSpec
mptp_of [] [] = NcSpec.unset
mptp_of [] (e ∷ es) = NcSpec.ss_mptpc (record { sgup_endpoint = []; tsf_endpoint = e ∷ es })
mptp_of (e ∷ es) tsf = NcSpec.ss_mptpc (record { sgup_endpoint = e ∷ es; tsf_endpoint = tsf })

-- An unset union becomes an `ss_ptp` without end points, the type with number 0.
abbrev pub normalise_union : NcSpec → NcSpec
normalise_union NcSpec.unset =
    NcSpec.ss_ptp (record { sgup_endpoint = []; tsf_endpoint = default_endpoint })
normalise_union (NcSpec.ss_ptp s) = NcSpec.ss_ptp (record {
  sgup_endpoint = normalise_endpoints s.sgup_endpoint;
  tsf_endpoint = normalise_endpoint s.tsf_endpoint;
})
normalise_union (NcSpec.ss_mptpc s) =
    mptp_of (normalise_endpoints s.sgup_endpoint) (normalise_endpoints s.tsf_endpoint)
normalise_union (NcSpec.ms_ptp s) = NcSpec.ms_ptp (record {
  sgup_endpoint = normalise_endpoint s.sgup_endpoint;
  tsf_endpoint = normalise_endpoint s.tsf_endpoint;
})
normalise_union (NcSpec.ms_mptp s) = NcSpec.ms_mptp (record {
  sgup_endpoint = normalise_endpoint s.sgup_endpoint;
  tsf_endpoint = normalise_endpoints s.tsf_endpoint;
})

endpoints_round_trip :
    (es : List Endpoint)
    → collect new_endpoint
        (clamp (length es))
        (fill put_endpoint (clamp (length es)) es zero_endpoints)
      ≡ some (normalise_endpoints es)
unfolding zero_endpoints
endpoints_round_trip es =
    counted_round_trip new_endpoint put_endpoint normalise_endpoint zero_endpoint
      (λ e. new_endpoint_round_trip e zero_endpoint) es

zero_endpoint_to_proto :
    endpoint_to_proto zero_endpoint default_endpoint ≡ some (default_endpoint, false)
unfolding endpoint_to_proto zero_endpoint zero_string load
zero_endpoint_to_proto = refl

add_sgup_endpoints_lem :
    (es : List Endpoint) (s : SsMptpSpec)
    → add_sgup_endpoints es (NcSpec.ss_mptpc s)
      ≡ NcSpec.ss_mptpc (record s { sgup_endpoint = s.sgup_endpoint ++ es })
unfolding add_sgup_endpoints mutable_ss_mptpc
add_sgup_endpoints_lem [] s = rw append-nil
add_sgup_endpoints_lem (e ∷ es) s = rw (
  add_sgup_endpoints_lem es (record s { sgup_endpoint = s.sgup_endpoint ++ e ∷ [] }),
  append_assoc,
)

add_tsf_endpoints_lem :
    (es : List Endpoint) (s : SsMptpSpec)
    → add_tsf_endpoints es (NcSpec.ss_mptpc s)
      ≡ NcSpec.ss_mptpc (record s { tsf_endpoint = s.tsf_endpoint ++ es })
unfolding add_tsf_endpoints mutable_ss_mptpc
add_tsf_endpoints_lem [] s = rw append-nil
add_tsf_endpoints_lem (e ∷ es) s =
    rw (
      add_tsf_endpoints_lem es (record s { tsf_endpoint = s.tsf_endpoint ++ e ∷ [] }),
      append_assoc,
    )

add_endpoints-eq-mptp_of :
    (sgup tsf : List Endpoint)
    → add_tsf_endpoints tsf (add_sgup_endpoints sgup NcSpec.unset) ≡ mptp_of sgup tsf
unfolding add_sgup_endpoints add_tsf_endpoints mutable_ss_mptpc
add_endpoints-eq-mptp_of [] [] = refl
add_endpoints-eq-mptp_of [] (e ∷ es) = rw add_tsf_endpoints_lem
add_endpoints-eq-mptp_of (e ∷ es) tsf = rw (add_sgup_endpoints_lem, add_tsf_endpoints_lem)

union_cases :
    (q : NetworkConnectionSpec) (u : NcSpec)
    → nc_spec_to_proto (nc_spec_to_c (record q { nc_spec = u })) default_nc_spec
      ≡ some (record q { nc_spec = normalise_union u }, true)
unfolding nc_spec_to_c nc_spec_to_proto collect
union_cases q NcSpec.unset = rw zero_endpoint_to_proto
union_cases q (NcSpec.ss_ptp s) =
    rw (endpoints_round_trip s.sgup_endpoint, put_endpoint_round_trip s.tsf_endpoint)
union_cases q (NcSpec.ss_mptpc s) = rw (
  endpoints_round_trip s.sgup_endpoint,
  endpoints_round_trip s.tsf_endpoint,
  add_endpoints-eq-mptp_of,
)
union_cases q (NcSpec.ms_ptp s) =
    rw (put_endpoint_round_trip s.sgup_endpoint, put_endpoint_round_trip s.tsf_endpoint)
union_cases q (NcSpec.ms_mptp s) =
    rw (put_endpoint_round_trip s.sgup_endpoint, endpoints_round_trip s.tsf_endpoint)

-- Every shape of a network connection comes back with its end points cut to 16 and their texts clipped
-- to 63 bytes, and is reported as known. Two shapes do not survive: an unset one becomes an `ss_ptp`
-- with no end points, and an `ss_mptpc` with no end points on either side becomes unset.
pub nc_spec_round_trip :
    (m : NetworkConnectionSpec)
    → nc_spec_to_proto (nc_spec_to_c m) default_nc_spec
      ≡ some (record m { nc_spec = normalise_union m.nc_spec }, true)
nc_spec_round_trip m = union_cases m m.nc_spec
