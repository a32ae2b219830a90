-- ===== src/RoundTrip/Endpoint.antt =====
-- End points, metadata and session filters there and back.
use libupsf.Prelude.{◌≡◌, Bool, true, false, some, arith}
use libupsf.Text.{Bytes}
use libupsf.Text.Copy.{clip, load-store}
use libupsf.Messages.{
  MetaData, SessionFilter, Endpoint, TransportEndpoint, default_endpoint, default_meta_data,
  default_session_filter, no_time,
}
use libupsf.Structs.{UpsfEndpoint}
use libupsf.Mapping.Endpoint.{
  metadata_to_c, metadata_to_proto, session_filter_to_c, session_filter_to_proto, endpoint_to_c,
  endpoint_to_proto, new_endpoint, put_endpoint,
}

-- The times are lost.
abbrev pub normalise_metadata : MetaData → MetaData
normalise_metadata m = record m {
  description = clip m.description;
  created = no_time;
  last_updated = no_time;
}

abbrev pub normalise_session_filter : SessionFilter → SessionFilter
normalise_session_filter m = record m { source_mac_address = clip m.source_mac_address }

abbrev pub normalise_transport : TransportEndpoint → TransportEndpoint
normalise_transport TransportEndpoint.unset = TransportEndpoint.unset
normalise_transport (TransportEndpoint.vtep v) =
    TransportEndpoint.vtep (record v { ip_address = clip v.ip_address })
normalise_transport (TransportEndpoint.l2vpn v) = TransportEndpoint.l2vpn v
normalise_transport (TransportEndpoint.port_vlan v) =
    TransportEndpoint.port_vlan (record v { logical_port = clip v.logical_port })

abbrev pub normalise_endpoint : Endpoint → Endpoint
normalise_endpoint m = record {
  endpoint_name = clip m.endpoint_name;
  transport_endpoint = normalise_transport m.transport_endpoint;
}

-- Whether an end point says where its transport ends.
abbrev pub is_set : TransportEndpoint → Bool
is_set TransportEndpoint.unset = false
is_set _ = true

pub metadata_round_trip :
    (m : MetaData)
    → metadata_to_proto (metadata_to_c m) default_meta_data ≡ some (normalise_metadata m)
unfolding metadata_to_proto metadata_to_c
metadata_round_trip m = rw (load-store m.description)

pub session_filter_round_trip :
    (m : SessionFilter)
    → session_filter_to_proto (session_filter_to_c m) default_session_filter
      ≡ some (normalise_session_filter m)
unfolding session_filter_to_proto session_filter_to_c
session_filter_round_trip m = rw (load-store m.source_mac_address)

endpoint_cases :
    (name : Bytes) (t : TransportEndpoint)
    → endpoint_to_proto
        (endpoint_to_c (record { endpoint_name = name; transport_endpoint = t })).0
        default_endpoint
      ≡ some
          (normalise_endpoint (record { endpoint_name = name; transport_endpoint = t }), is_set t)
unfolding endpoint_to_proto endpoint_to_c
endpoint_cases name TransportEndpoint.unset = rw (load-store name)
endpoint_cases name (TransportEndpoint.vtep v) = rw (load-store name, load-store v.ip_address)
endpoint_cases name (TransportEndpoint.l2vpn v) = rw (load-store name)
endpoint_cases name (TransportEndpoint.port_vlan v) =
    rw (load-store name, load-store v.logical_port)

-- An end point comes back with its texts clipped to 63 bytes and nothing else changed, and both
-- directions report failure exactly where no transport is set.
pub endpoint_round_trip :
    (m : Endpoint)
    → (endpoint_to_proto (endpoint_to_c m).0 default_endpoint
        ≡ some (normalise_endpoint m, is_set m.transport_endpoint))
      × ((endpoint_to_c m).1 ≡ is_set m.transport_endpoint)
unfolding endpoint_to_c
endpoint_round_trip m = (endpoint_cases m.endpoint_name m.transport_endpoint, ground arith)

pub put_endpoint_round_trip :
    (m : Endpoint) (old : UpsfEndpoint)
    → endpoint_to_proto (put_endpoint m old) default_endpoint
      ≡ some (normalise_endpoint m, is_set m.transport_endpoint)
unfolding put_endpoint
put_endpoint_round_trip m old = (endpoint_round_trip m).0

pub new_endpoint_round_trip :
    (m : Endpoint) (old : UpsfEndpoint)
    → new_endpoint (put_endpoint m old) ≡ some (normalise_endpoint m)
unfolding new_endpoint
new_endpoint_round_trip m old = rw (put_endpoint_round_trip m old)
