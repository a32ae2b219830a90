-- ===== src/WellFormed/Connection.antt =====
-- Network connections that can be read.
use libupsf.Prelude.{◌∷◌, if◌then◌else◌, Bool, true, false, ℕ, Bool, List, [], refl, length}
use libupsf.Text.{store, Bytes, zero_string, load}
use libupsf.Arrays.{clamp, fill, fill_until, collect}
use libupsf.MapField.{MapField}
use libupsf.Messages.{Endpoint, NcSpec, NetworkConnection, NetworkConnectionSpec}
use libupsf.Structs.{
  KeyValue, UpsfEndpoint, UpsfNcSpec, UpsfNetworkConnection, NcSpecType, NcSpecUnion, zero_endpoint,
  zero_endpoints, zero_key_values, zero_key_value, zero_ss_ptp,
}
use libupsf.Mapping.Endpoint.{new_endpoint, put_endpoint}
use libupsf.Mapping.NcSpec.{nc_spec_to_c, nc_spec_to_proto}
use libupsf.Mapping.Connection.{
  put_flag, get_flag, nc_status_to_c, nc_status_to_proto, network_connection_to_c,
  network_connection_to_proto,
}
use libupsf.WellFormed.Arrays.{
  IsDefined, IsDefined-some, IsDefined-bind, IsTerminated, Holds, store-IsTerminated, fill-Holds,
  fill_until-Holds, collect-IsDefined,
}
use libupsf.WellFormed.Endpoint.{
  IsReadableEndpoint, IsReadableMetadata, metadata_to_c-IsReadableMetadata,
  metadata_to_proto-IsDefined, put_endpoint-IsReadableEndpoint, endpoint_to_proto-IsDefined,
  new_endpoint-IsDefined,
}

-- The union holds what the type says, or is as memset left it.
abbrev pub IsTaggedUnion : NcSpecType → NcSpecUnion → Type 0
IsTaggedUnion NcSpecType.ss_ptp NcSpecUnion.zeroed = Unit
IsTaggedUnion NcSpecType.ss_ptp (NcSpecUnion.ss_ptp s) =
    Holds IsReadableEndpoint s.sgup_endpoint_size s.sgup_endpoint
    × IsReadableEndpoint s.tsf_endpoint
IsTaggedUnion NcSpecType.ss_ptp _ = ⊥
IsTaggedUnion NcSpecType.ss_mptp (NcSpecUnion.ss_mptp s) =
    Holds IsReadableEndpoint s.sgup_endpoint_size s.sgup_endpoint
    × Holds IsReadableEndpoint s.tsf_endpoint_size s.tsf_endpoint
IsTaggedUnion NcSpecType.ss_mptp _ = ⊥
IsTaggedUnion NcSpecType.ms_ptp (NcSpecUnion.ms_ptp s) =
    IsReadableEndpoint s.sgup_endpoint × IsReadableEndpoint s.tsf_endpoint
IsTaggedUnion NcSpecType.ms_ptp _ = ⊥
IsTaggedUnion NcSpecType.ms_mptp (NcSpecUnion.ms_mptp s) =
    IsReadableEndpoint s.sgup_endpoint × Holds IsReadableEndpoint s.tsf_endpoint_size s.tsf_endpoint
IsTaggedUnion NcSpecType.ms_mptp _ = ⊥
IsTaggedUnion NcSpecType.max _ = Unit

abbrev IsReadableFlag : KeyValue → Type 0
IsReadableFlag c = IsTerminated c.key × IsTerminated c.value

pub record IsReadableConnection (c : UpsfNetworkConnection) : Type 0 where
  pub name : IsTerminated c.name
  pub metadata : IsReadableMetadata c.metadata
  pub union : IsTaggedUnion c.spec.nc_spec_type c.spec.nc_spec
  pub flags :
      Holds
        (λ (e : KeyValue). IsTerminated e.key × IsTerminated e.value)
        c.status.nc_active_size
        c.status.nc_active

endpoints-Holds :
    (es : List Endpoint)
    → Holds IsReadableEndpoint
        (clamp (length es))
        (fill put_endpoint (clamp (length es)) es zero_endpoints)
unfolding zero_endpoints
endpoints-Holds es =
    fill-Holds put_endpoint zero_endpoint IsReadableEndpoint
      (λ m. put_endpoint-IsReadableEndpoint m zero_endpoint) es

union_to_c :
    (q : NetworkConnectionSpec) (u : NcSpec)
    → IsTaggedUnion
        (nc_spec_to_c (record q { nc_spec = u })).nc_spec_type
        (nc_spec_to_c (record q { nc_spec = u })).nc_spec
unfolding nc_spec_to_c
union_to_c q NcSpec.unset = tt
union_to_c q (NcSpec.ss_ptp s) =
    (endpoints-Holds s.sgup_endpoint, put_endpoint-IsReadableEndpoint s.tsf_endpoint zero_endpoint)
union_to_c q (NcSpec.ss_mptpc s) = (endpoints-Holds s.sgup_endpoint, endpoints-Holds s.tsf_endpoint)
union_to_c q (NcSpec.ms_ptp s) = (
  put_endpoint-IsReadableEndpoint s.sgup_endpoint zero_endpoint,
  put_endpoint-IsReadableEndpoint s.tsf_endpoint zero_endpoint,
)
union_to_c q (NcSpec.ms_mptp s) =
    (put_endpoint-IsReadableEndpoint s.sgup_endpoint zero_endpoint, endpoints-Holds s.tsf_endpoint)

flag-IsTerminated :
    (active : Bool)
    → IsTerminated (
        if active
        then store (b'1' ∷ []) zero_key_value.value
        else store (b'0' ∷ []) zero_key_value.value)
flag-IsTerminated true = store-IsTerminated (b'1' ∷ [])
flag-IsTerminated false = store-IsTerminated (b'0' ∷ [])

flags-Holds :
    (es : List (Bytes × Bool))
    → Holds IsReadableFlag
        (fill_until put_flag 0 es zero_key_values).1
        (fill_until put_flag 0 es zero_key_values).0
unfolding zero_key_values put_flag
flags-Holds es =
    fill_until-Holds put_flag zero_key_value IsReadableFlag
      (λ (k, v). (store-IsTerminated k, flag-IsTerminated v)) es

-- The structure that a network connection is mapped to has only terminated strings, the keys and
-- values of its flags included, at most 16 elements in each of its arrays of 16, and unions that
-- hold what their types say, or the zeros of memset.
pub network_connection_to_c-IsReadableConnection :
    (m : NetworkConnection) → IsReadableConnection (network_connection_to_c m)
unfolding network_connection_to_c nc_status_to_c
network_connection_to_c-IsReadableConnection m = record {
  name = store-IsTerminated m.name;
  metadata = metadata_to_c-IsReadableMetadata m.metadata;
  union = union_to_c m.spec m.spec.nc_spec;
  flags = flags-Holds m.status.nc_active;
}

endpoints-IsDefined :
    (n : ℕ) (arr : List UpsfEndpoint)
    → Holds IsReadableEndpoint n arr
    → IsDefined (collect new_endpoint n arr)
endpoints-IsDefined n arr h =
    collect-IsDefined new_endpoint IsReadableEndpoint new_endpoint-IsDefined n arr h

zero_endpoint-IsReadable : IsReadableEndpoint zero_endpoint
unfolding zero_endpoint zero_string load
zero_endpoint-IsReadable = record { endpoint_name = ([], refl); tagged = tt }

union_to_proto :
    (q : UpsfNcSpec) (t : NcSpecType) (u : NcSpecUnion) (to : NetworkConnectionSpec)
    → IsTaggedUnion t u
    → IsDefined (nc_spec_to_proto (record q { nc_spec_type = t; nc_spec = u }) to)
unfolding nc_spec_to_proto collect zero_ss_ptp
union_to_proto q NcSpecType.ss_ptp NcSpecUnion.zeroed to h =
    IsDefined-bind _ _
      (IsDefined-bind _ _ (endpoint_to_proto-IsDefined _ _ zero_endpoint-IsReadable)
        λ t. IsDefined-some _)
      λ r. IsDefined-some _
union_to_proto q NcSpecType.ss_ptp (NcSpecUnion.ss_ptp s) to h =
    IsDefined-bind _ _
      (IsDefined-bind _ _ (endpoints-IsDefined _ _ h.0)
        λ g. IsDefined-bind _ _ (endpoint_to_proto-IsDefined _ _ h.1) λ t. IsDefined-some _)
      λ r. IsDefined-some _
union_to_proto q NcSpecType.ss_ptp (NcSpecUnion.ss_mptp s) to h = absurd h
union_to_proto q NcSpecType.ss_ptp (NcSpecUnion.ms_ptp s) to h = absurd h
union_to_proto q NcSpecType.ss_ptp (NcSpecUnion.ms_mptp s) to h = absurd h
union_to_proto q NcSpecType.ss_mptp NcSpecUnion.zeroed to h = absurd h
union_to_proto q NcSpecType.ss_mptp (NcSpecUnion.ss_ptp s) to h = absurd h
union_to_proto q NcSpecType.ss_mptp (NcSpecUnion.ss_mptp s) to h =
    IsDefined-bind _ _
      (IsDefined-bind _ _ (endpoints-IsDefined _ _ h.0)
        λ g. IsDefined-bind _ _ (endpoints-IsDefined _ _ h.1) λ t. IsDefined-some _)
      λ r. IsDefined-some _
union_to_proto q NcSpecType.ss_mptp (NcSpecUnion.ms_ptp s) to h = absurd h
union_to_proto q NcSpecType.ss_mptp (NcSpecUnion.ms_mptp s) to h = absurd h
union_to_proto q NcSpecType.ms_ptp NcSpecUnion.zeroed to h = absurd h
union_to_proto q NcSpecType.ms_ptp (NcSpecUnion.ss_ptp s) to h = absurd h
union_to_proto q NcSpecType.ms_ptp (NcSpecUnion.ss_mptp s) to h = absurd h
union_to_proto q NcSpecType.ms_ptp (NcSpecUnion.ms_ptp s) to h =
    IsDefined-bind _ _
      (IsDefined-bind _ _ (endpoint_to_proto-IsDefined _ _ h.0)
        λ g. IsDefined-bind _ _ (endpoint_to_proto-IsDefined _ _ h.1) λ t. IsDefined-some _)
      λ r. IsDefined-some _
union_to_proto q NcSpecType.ms_ptp (NcSpecUnion.ms_mptp s) to h = absurd h
union_to_proto q NcSpecType.ms_mptp NcSpecUnion.zeroed to h = absurd h
union_to_proto q NcSpecType.ms_mptp (NcSpecUnion.ss_ptp s) to h = absurd h
union_to_proto q NcSpecType.ms_mptp (NcSpecUnion.ss_mptp s) to h = absurd h
union_to_proto q NcSpecType.ms_mptp (NcSpecUnion.ms_ptp s) to h = absurd h
union_to_proto q NcSpecType.ms_mptp (NcSpecUnion.ms_mptp s) to h =
    IsDefined-bind _ _
      (IsDefined-bind _ _ (endpoint_to_proto-IsDefined _ _ h.0)
        λ g. IsDefined-bind _ _ (endpoints-IsDefined _ _ h.1) λ t. IsDefined-some _)
      λ r. IsDefined-some _
union_to_proto q NcSpecType.max u to h = IsDefined-some _

get_flag-IsDefined : (c : KeyValue) → IsReadableFlag c → IsDefined (get_flag c)
unfolding get_flag
get_flag-IsDefined c h = IsDefined-bind _ _ h.0 λ k. IsDefined-some _

module _ ⦃ops : MapField Bool⦄ where
  -- A readable network connection of any caller is mapped to a message without an undefined read.
  pub network_connection_to_proto-IsDefined :
      (c : UpsfNetworkConnection) (to : NetworkConnection)
      → IsReadableConnection c
      → IsDefined (network_connection_to_proto c to)
  unfolding network_connection_to_proto nc_status_to_proto
  network_connection_to_proto-IsDefined c to h = IsDefined-bind _ _ h.name λ n.
      IsDefined-bind _ _ (metadata_to_proto-IsDefined c.metadata to.metadata h.metadata) λ d.
        IsDefined-bind _ _
          (union_to_proto c.spec c.spec.nc_spec_type c.spec.nc_spec to.spec h.union)
          λ s.
            IsDefined-bind _ _
              (IsDefined-bind _ _
                (collect-IsDefined get_flag IsReadableFlag get_flag-IsDefined _ _ h.flags)
                λ f. IsDefined-some _)
              λ t. IsDefined-some _
