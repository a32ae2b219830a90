-- ===== src/RoundTrip/Stable.antt =====
-- A structure that came from a message goes to a message and back without a change.
use libupsf.Prelude.{
  ℕ, zero, suc, ◌≤◌, ◌≡◌, refl, ap, sym, ◌∙◌, List, [], ◌∷◌, map, arith, length, take, replicate,
  min, length-take, length-replicate,
}
use libupsf.Text.{Bytes, UpsfString, store, strncpy, until_nul, zero_string}
use libupsf.Text.Copy.{clip}
use libupsf.Arrays.{max_num, clamp, fill, fill_until}
use libupsf.Arrays.Loops.{clamp-eq-min, clamp-le, fill_until-eq-fill}
use libupsf.Structs.{UpsfEndpoint, zero_strings}
use libupsf.Messages.{
  MetaData, Endpoint, TransportEndpoint, ServiceGateway, ServiceGatewayUserPlane,
  TrafficSteeringFunction, SessionContext,
}
use libupsf.Mapping.Endpoint.{metadata_to_c, session_filter_to_c, endpoint_to_c, put_endpoint}
use libupsf.Mapping.Gateway.{
  service_gateway_to_c, user_plane_to_c, user_plane_spec_to_c, steering_function_to_c,
  steering_spec_to_c,
}
use libupsf.Mapping.Session.{
  session_spec_to_c, session_desired_state_to_c, session_current_state_to_c, session_status_to_c,
  session_context_to_c,
}
use libupsf.RoundTrip.Endpoint.{normalise_metadata, normalise_endpoint, normalise_transport}
use libupsf.RoundTrip.Strings.{normalise_texts}
use libupsf.RoundTrip.Gateway.{
  normalise_service_gateway, normalise_user_plane, normalise_steering_function,
}
use libupsf.RoundTrip.Session.{normalise_session_context}

strncpy-clip : (n : ℕ) (dst t : Bytes) → strncpy dst (take n (until_nul t)) n ≡ strncpy dst t n
unfolding strncpy until_nul
strncpy-clip zero dst t = refl
strncpy-clip (suc n) [] t = refl
strncpy-clip (suc n) (d ∷ dst) [] = refl
strncpy-clip (suc n) (d ∷ dst) (c ∷ t) = ground (arith, strncpy-clip n dst t)

store-clip : (t : Bytes) (to : UpsfString) → store (clip t) to ≡ store t to
unfolding store
store-clip t to = rw (strncpy-clip 63 to.str t)

module _ {A B : Type 0} (f : B → A → A) (h : B → B)
    (same : (x : B) (a : A) → f (h x) a ≡ f x a) where
  fill-map :
      (n k : ℕ) (xs : List B) (to : List A)
      → n ≤ k
      → fill f n (map h (take k xs)) to ≡ fill f n xs to
  unfolding fill
  fill-map zero k xs to e = refl
  fill-map (suc n) zero xs to e = absurd (omega arith)
  fill-map (suc n) (suc k) [] to e = refl
  fill-map (suc n) (suc k) (x ∷ xs) [] e = refl
  fill-map (suc n) (suc k) (x ∷ xs) (a ∷ to) e = rw (same x a, fill-map n k xs to (omega arith))

length-map {ℓ} : {A B : Type ℓ} (f : A → B) (xs : List A) → length (map f xs) ≡ length xs
length-map f [] = refl
length-map f (x ∷ xs) = ap suc (length-map f xs)

clamp-normalise_texts : (xs : List Bytes) → clamp (length (normalise_texts xs)) ≡ clamp (length xs)
clamp-normalise_texts xs =
    rw (length-map clip (take max_num xs), length-take max_num xs)
      (omega (arith, clamp-eq-min (min max_num (length xs)), clamp-eq-min (length xs)))

texts_stable :
    (xs : List Bytes) (to : List UpsfString)
    → fill store (clamp (length xs)) (normalise_texts xs) to ≡ fill store (clamp (length xs)) xs to
texts_stable xs to =
    fill-map store clip store-clip (clamp (length xs)) max_num xs to (clamp-le (length xs))

breaking_stable :
    (xs : List Bytes)
    → fill_until store 0 (normalise_texts xs) zero_strings ≡ fill_until store 0 xs zero_strings
unfolding zero_strings
breaking_stable xs =
    let full = length-replicate max_num zero_string in
    let (a, b) = fill_until-eq-fill store xs (replicate max_num zero_string) full in
    let (c, d) =
      fill_until-eq-fill store (normalise_texts xs) (replicate max_num zero_string) full in
    λ i. (
      (c
            ∙ ap (λ n. fill store n (normalise_texts xs) (replicate max_num zero_string))
                (clamp-normalise_texts xs)
            ∙ texts_stable xs (replicate max_num zero_string)
            ∙ sym a)
          i,
      (d ∙ clamp-normalise_texts xs ∙ sym b) i,
    )

metadata_stable : (m : MetaData) → metadata_to_c (normalise_metadata m) ≡ metadata_to_c m
unfolding metadata_to_c
metadata_stable m = rw (store-clip m.description)

endpoint_stable_cases :
    (name : Bytes) (t : TransportEndpoint)
    → endpoint_to_c
        (record { endpoint_name = clip name; transport_endpoint = normalise_transport t })
      ≡ endpoint_to_c (record { endpoint_name = name; transport_endpoint = t })
unfolding endpoint_to_c
endpoint_stable_cases name TransportEndpoint.unset = rw (store-clip name)
endpoint_stable_cases name (TransportEndpoint.vtep v) =
    rw (store-clip name, store-clip v.ip_address)
endpoint_stable_cases name (TransportEndpoint.l2vpn v) = rw (store-clip name)
endpoint_stable_cases name (TransportEndpoint.port_vlan v) =
    rw (store-clip name, store-clip v.logical_port)

endpoint_stable :
    (m : Endpoint) (old : UpsfEndpoint)
    → put_endpoint (normalise_endpoint m) old ≡ put_endpoint m old
unfolding put_endpoint
endpoint_stable m old = ap (λ r. r.0) (endpoint_stable_cases m.endpoint_name m.transport_endpoint)

pub service_gateway_stable :
    (m : ServiceGateway)
    → service_gateway_to_c (normalise_service_gateway m) ≡ service_gateway_to_c m
unfolding service_gateway_to_c
service_gateway_stable m = rw (store-clip m.name, metadata_stable m.metadata)

pub steering_function_stable :
    (m : TrafficSteeringFunction)
    → steering_function_to_c (normalise_steering_function m) ≡ steering_function_to_c m
unfolding steering_function_to_c steering_spec_to_c
steering_function_stable m =
    rw (store-clip m.name, metadata_stable m.metadata, endpoint_stable m.spec.default_endpoint)

pub user_plane_stable :
    (m : ServiceGatewayUserPlane) → user_plane_to_c (normalise_user_plane m) ≡ user_plane_to_c m
unfolding user_plane_to_c user_plane_spec_to_c
user_plane_stable m = rw (
  store-clip m.name,
  store-clip m.service_gateway_name,
  metadata_stable m.metadata,
  clamp-normalise_texts m.spec.supported_service_group,
  texts_stable m.spec.supported_service_group,
  endpoint_stable m.spec.default_endpoint,
)

pub session_context_stable :
    (m : SessionContext)
    → session_context_to_c (normalise_session_context m) ≡ session_context_to_c m
unfolding session_context_to_c session_spec_to_c session_status_to_c session_current_state_to_c
    session_desired_state_to_c session_filter_to_c
session_context_stable m = rw (
  store-clip m.name,
  metadata_stable m.metadata,
  store-clip m.spec.traffic_steering_function,
  breaking_stable m.spec.required_service_group,
  store-clip m.spec.circuit_id,
  store-clip m.spec.remote_id,
  store-clip m.spec.session_filter.source_mac_address,
  store-clip m.spec.desired_state.shard,
  store-clip m.spec.network_connection,
  store-clip m.status.current_state.user_plane_shard,
  store-clip m.status.current_state.tsf_shard,
)
