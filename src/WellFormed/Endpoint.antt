-- ===== src/WellFormed/Endpoint.antt =====
-- End points, metadata and session filters that can be read.
use libupsf.Text.{Bytes, UpsfString}
use libupsf.Messages.{MetaData, SessionFilter, Endpoint, TransportEndpoint, default_endpoint}
use libupsf.Structs.{UpsfMetadata, UpsfSessionFilter, UpsfEndpoint, EpType, EpSpec}
use libupsf.Mapping.Endpoint.{
  metadata_to_c, metadata_to_proto, session_filter_to_c, session_filter_to_proto, endpoint_to_c,
  endpoint_to_proto, new_endpoint, put_endpoint,
}
use libupsf.WellFormed.Arrays.{
  IsDefined, IsDefined-some, IsDefined-bind, IsTerminated, store-IsTerminated,
}

-- The union holds what the type says. A zeroed union is not counted, so that its reader need not rely
-- on how a zeroed member looks.
abbrev pub IsTagged : EpType → EpSpec → Type 0
IsTagged EpType.vtep (EpSpec.vtep v) = IsTerminated v.ip_address
IsTagged EpType.vtep _ = ⊥
IsTagged EpType.l2vpn (EpSpec.l2vpn v) = Unit
IsTagged EpType.l2vpn _ = ⊥
IsTagged EpType.port_vlan (EpSpec.port_vlan v) = IsTerminated v.logical_port
IsTagged EpType.port_vlan _ = ⊥
IsTagged EpType.unspecified _ = Unit
IsTagged EpType.max _ = Unit

pub record IsReadableEndpoint (c : UpsfEndpoint) : Type 0 where
  pub endpoint_name : IsTerminated c.endpoint_name
  pub tagged : IsTagged c.ep_type c.ep_spec

abbrev pub IsReadableMetadata : UpsfMetadata → Type 0
IsReadableMetadata c = IsTerminated c.description

pub metadata_to_c-IsReadableMetadata : (m : MetaData) → IsReadableMetadata (metadata_to_c m)
unfolding metadata_to_c
metadata_to_c-IsReadableMetadata m = store-IsTerminated m.description

pub metadata_to_proto-IsDefined :
    (c : UpsfMetadata) (to : MetaData) → IsReadableMetadata c → IsDefined (metadata_to_proto c to)
unfolding metadata_to_proto
metadata_to_proto-IsDefined c to h = IsDefined-bind _ _ h (λ t. IsDefined-some _)

pub session_filter_to_c-IsTerminated :
    (m : SessionFilter) → IsTerminated (session_filter_to_c m).source_mac_address
unfolding session_filter_to_c
session_filter_to_c-IsTerminated m = store-IsTerminated m.source_mac_address

pub session_filter_to_proto-IsDefined :
    (c : UpsfSessionFilter) (to : SessionFilter)
    → IsTerminated c.source_mac_address
    → IsDefined (session_filter_to_proto c to)
unfolding session_filter_to_proto
session_filter_to_proto-IsDefined c to h = IsDefined-bind _ _ h (λ t. IsDefined-some _)

endpoint_cases :
    (name : Bytes) (t : TransportEndpoint)
    → IsReadableEndpoint (endpoint_to_c (record { endpoint_name = name; transport_endpoint = t })).0
unfolding endpoint_to_c
endpoint_cases name TransportEndpoint.unset = record {
  endpoint_name = store-IsTerminated name;
  tagged = tt;
}
endpoint_cases name (TransportEndpoint.vtep v) = record {
  endpoint_name = store-IsTerminated name;
  tagged = store-IsTerminated v.ip_address;
}
endpoint_cases name (TransportEndpoint.l2vpn v) = record {
  endpoint_name = store-IsTerminated name;
  tagged = tt;
}
endpoint_cases name (TransportEndpoint.port_vlan v) = record {
  endpoint_name = store-IsTerminated name;
  tagged = store-IsTerminated v.logical_port;
}

pub put_endpoint-IsReadableEndpoint :
    (m : Endpoint) (old : UpsfEndpoint) → IsReadableEndpoint (put_endpoint m old)
unfolding put_endpoint
put_endpoint-IsReadableEndpoint m old = endpoint_cases m.endpoint_name m.transport_endpoint

union_cases :
    (name : UpsfString) (t : EpType) (u : EpSpec) (to : Endpoint)
    → IsTerminated name
    → IsTagged t u
    → IsDefined (endpoint_to_proto (record { endpoint_name = name; ep_type = t; ep_spec = u }) to)
unfolding endpoint_to_proto
union_cases name EpType.vtep (EpSpec.vtep v) to n h =
    IsDefined-bind _ _ n
      λ s. IsDefined-bind _ _ (IsDefined-bind _ _ h λ i. IsDefined-some _) λ w. IsDefined-some _
union_cases name EpType.vtep EpSpec.zeroed to n h = absurd h
union_cases name EpType.vtep (EpSpec.l2vpn v) to n h = absurd h
union_cases name EpType.vtep (EpSpec.port_vlan v) to n h = absurd h
union_cases name EpType.l2vpn (EpSpec.l2vpn v) to n h = IsDefined-bind _ _ n λ s. IsDefined-some _
union_cases name EpType.l2vpn EpSpec.zeroed to n h = absurd h
union_cases name EpType.l2vpn (EpSpec.vtep v) to n h = absurd h
union_cases name EpType.l2vpn (EpSpec.port_vlan v) to n h = absurd h
union_cases name EpType.port_vlan (EpSpec.port_vlan v) to n h =
    IsDefined-bind _ _ n
      λ s. IsDefined-bind _ _ (IsDefined-bind _ _ h λ i. IsDefined-some _) λ w. IsDefined-some _
union_cases name EpType.port_vlan EpSpec.zeroed to n h = absurd h
union_cases name EpType.port_vlan (EpSpec.vtep v) to n h = absurd h
union_cases name EpType.port_vlan (EpSpec.l2vpn v) to n h = absurd h
union_cases name EpType.unspecified u to n h = IsDefined-bind _ _ n λ s. IsDefined-some _
union_cases name EpType.max u to n h = IsDefined-bind _ _ n λ s. IsDefined-some _

pub endpoint_to_proto-IsDefined :
    (c : UpsfEndpoint) (to : Endpoint) → IsReadableEndpoint c → IsDefined (endpoint_to_proto c to)
endpoint_to_proto-IsDefined c to h =
    union_cases c.endpoint_name c.ep_type c.ep_spec to h.endpoint_name h.tagged

pub new_endpoint-IsDefined : (c : UpsfEndpoint) → IsReadableEndpoint c → IsDefined (new_endpoint c)
unfolding new_endpoint
new_endpoint-IsDefined c h =
    IsDefined-bind _ _ (endpoint_to_proto-IsDefined c default_endpoint h) λ r. IsDefined-some _
