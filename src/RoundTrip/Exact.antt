-- ===== src/RoundTrip/Exact.antt =====
-- Messages that the structures hold whole come back unchanged.
use libupsf.Prelude.{
  ◌≤◌, ◌≡◌, refl, sym, ◌∙◌, List, [], ◌∷◌, some, length, All, map_fixed, take_all,
}
use libupsf.Text.{Bytes}
use libupsf.Text.Copy.{FitsText, clip, clip_fits}
use libupsf.Arrays.{max_num}
use libupsf.Messages.{
  MetaData, Endpoint, TransportEndpoint, ServiceGatewayUserPlane, SessionContext, SessionSpec,
  no_time, default_user_plane, default_session_context,
}
use libupsf.Mapping.Gateway.{user_plane_to_c, user_plane_to_proto}
use libupsf.Mapping.Session.{session_context_to_c, session_context_to_proto}
use libupsf.RoundTrip.Endpoint.{normalise_metadata, normalise_endpoint, normalise_transport}
use libupsf.RoundTrip.Strings.{normalise_texts}
use libupsf.RoundTrip.Gateway.{user_plane_round_trip}
use libupsf.RoundTrip.Session.{normalise_session_spec, session_context_round_trip}

pub record FitsTexts (xs : List Bytes) : Type 0 where
  pub short : length xs ≤ max_num
  pub each : All FitsText xs

pub record FitsMetadata (m : MetaData) : Type 0 where
  pub description : FitsText m.description
  pub created : m.created ≡ no_time
  pub last_updated : m.last_updated ≡ no_time

abbrev pub FitsTransport : TransportEndpoint → Type 0
FitsTransport TransportEndpoint.unset = Unit
FitsTransport (TransportEndpoint.vtep v) = FitsText v.ip_address
FitsTransport (TransportEndpoint.l2vpn v) = Unit
FitsTransport (TransportEndpoint.port_vlan v) = FitsText v.logical_port

pub record FitsEndpoint (m : Endpoint) : Type 0 where
  pub endpoint_name : FitsText m.endpoint_name
  pub transport : FitsTransport m.transport_endpoint

pub record FitsUserPlane (m : ServiceGatewayUserPlane) : Type 0 where
  pub name : FitsText m.name
  pub service_gateway_name : FitsText m.service_gateway_name
  pub metadata : FitsMetadata m.metadata
  pub groups : FitsTexts m.spec.supported_service_group
  pub endpoint : FitsEndpoint m.spec.default_endpoint

pub record FitsSessionSpec (m : SessionSpec) : Type 0 where
  pub traffic_steering_function : FitsText m.traffic_steering_function
  pub groups : FitsTexts m.required_service_group
  pub circuit_id : FitsText m.circuit_id
  pub remote_id : FitsText m.remote_id
  pub source_mac_address : FitsText m.session_filter.source_mac_address
  pub shard : FitsText m.desired_state.shard
  pub network_connection : FitsText m.network_connection

pub record FitsSession (m : SessionContext) : Type 0 where
  pub name : FitsText m.name
  pub metadata : FitsMetadata m.metadata
  pub spec : FitsSessionSpec m.spec
  pub user_plane_shard : FitsText m.status.current_state.user_plane_shard
  pub tsf_shard : FitsText m.status.current_state.tsf_shard

All-clip : (xs : List Bytes) → All FitsText xs → All (λ t. clip t ≡ t) xs
All-clip [] h = tt
All-clip (x ∷ xs) h = (clip_fits x h.0, All-clip xs h.1)

texts_exact : (xs : List Bytes) → FitsTexts xs → normalise_texts xs ≡ xs
texts_exact xs h = rw (take_all max_num xs h.short) (map_fixed clip xs (All-clip xs h.each))

metadata_exact : (m : MetaData) → FitsMetadata m → normalise_metadata m ≡ m
metadata_exact m h = λ i. record {
  description = clip_fits m.description h.description i;
  created = sym h.created i;
  last_updated = sym h.last_updated i;
  derived_state = m.derived_state;
}

transport_exact : (t : TransportEndpoint) → FitsTransport t → normalise_transport t ≡ t
transport_exact TransportEndpoint.unset h = refl
transport_exact (TransportEndpoint.vtep v) h = rw (clip_fits v.ip_address h)
transport_exact (TransportEndpoint.l2vpn v) h = refl
transport_exact (TransportEndpoint.port_vlan v) h = rw (clip_fits v.logical_port h)

endpoint_exact : (m : Endpoint) → FitsEndpoint m → normalise_endpoint m ≡ m
endpoint_exact m h =
    rw (clip_fits m.endpoint_name h.endpoint_name, transport_exact m.transport_endpoint h.transport)

session_spec_exact : (m : SessionSpec) → FitsSessionSpec m → normalise_session_spec m ≡ m
session_spec_exact m h = rw (
  clip_fits m.traffic_steering_function h.traffic_steering_function,
  texts_exact m.required_service_group h.groups,
  clip_fits m.circuit_id h.circuit_id,
  clip_fits m.remote_id h.remote_id,
  clip_fits m.session_filter.source_mac_address h.source_mac_address,
  clip_fits m.desired_state.shard h.shard,
  clip_fits m.network_connection h.network_connection,
)

-- A user plane without times whose texts have at most 63 bytes, none of them zero, and that has at
-- most 16 service groups comes back unchanged.
pub user_plane_exact :
    (m : ServiceGatewayUserPlane)
    → FitsUserPlane m
    → user_plane_to_proto (user_plane_to_c m) default_user_plane ≡ some m
user_plane_exact m h =
    user_plane_round_trip m
    ∙ rw (
      clip_fits m.name h.name,
      clip_fits m.service_gateway_name h.service_gateway_name,
      metadata_exact m.metadata h.metadata,
      texts_exact m.spec.supported_service_group h.groups,
      endpoint_exact m.spec.default_endpoint h.endpoint,
    )

-- A session context without times whose texts have at most 63 bytes, none of them zero, and that
-- requires at most 16 service groups comes back unchanged.
pub session_context_exact :
    (m : SessionContext)
    → FitsSession m
    → session_context_to_proto (session_context_to_c m) default_session_context ≡ some m
session_context_exact m h =
    session_context_round_trip m
    ∙ rw (
      clip_fits m.name h.name,
      metadata_exact m.metadata h.metadata,
      session_spec_exact m.spec h.spec,
      clip_fits m.status.current_state.user_plane_shard h.user_plane_shard,
      clip_fits m.status.current_state.tsf_shard h.tsf_shard,
    )
