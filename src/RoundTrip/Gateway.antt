-- ===== src/RoundTrip/Gateway.antt =====
-- Service gateways, user planes and traffic steering functions there and back.
use libupsf.Prelude.{◌≡◌, some}
use libupsf.Text.Copy.{clip, load-store}
use libupsf.Messages.{
  ServiceGateway, ServiceGatewayUserPlane, UserPlaneSpec, TrafficSteeringFunction,
  default_service_gateway, default_user_plane_spec, default_user_plane, default_steering_function,
}
use libupsf.Mapping.Gateway.{
  service_gateway_to_c, service_gateway_to_proto, user_plane_spec_to_c, user_plane_spec_to_proto,
  user_plane_status_to_c, user_plane_status_to_proto, user_plane_to_c, user_plane_to_proto,
  steering_spec_to_c, steering_spec_to_proto, steering_function_to_c, steering_function_to_proto,
}
use libupsf.RoundTrip.Endpoint.{
  normalise_metadata, normalise_endpoint, metadata_round_trip, put_endpoint_round_trip,
}
use libupsf.RoundTrip.Strings.{normalise_texts, strings_round_trip}

abbrev pub normalise_service_gateway : ServiceGateway → ServiceGateway
normalise_service_gateway m = record {
  name = clip m.name;
  metadata = normalise_metadata m.metadata;
}

abbrev pub normalise_user_plane_spec : UserPlaneSpec → UserPlaneSpec
normalise_user_plane_spec m = record m {
  supported_service_group = normalise_texts m.supported_service_group;
  default_endpoint = normalise_endpoint m.default_endpoint;
}

abbrev pub normalise_user_plane : ServiceGatewayUserPlane → ServiceGatewayUserPlane
normalise_user_plane m = record m {
  name = clip m.name;
  service_gateway_name = clip m.service_gateway_name;
  metadata = normalise_metadata m.metadata;
  spec = normalise_user_plane_spec m.spec;
}

abbrev pub normalise_steering_function : TrafficSteeringFunction → TrafficSteeringFunction
normalise_steering_function m = record {
  name = clip m.name;
  metadata = normalise_metadata m.metadata;
  spec = record { default_endpoint = normalise_endpoint m.spec.default_endpoint };
}

-- A service gateway comes back with its name and description clipped to 63 bytes and its times
-- cleared.
pub service_gateway_round_trip :
    (m : ServiceGateway)
    → service_gateway_to_proto (service_gateway_to_c m) default_service_gateway
      ≡ some (normalise_service_gateway m)
unfolding service_gateway_to_c service_gateway_to_proto
service_gateway_round_trip m = rw (load-store m.name, metadata_round_trip m.metadata)

user_plane_spec_round_trip :
    (m : UserPlaneSpec)
    → user_plane_spec_to_proto (user_plane_spec_to_c m) default_user_plane_spec
      ≡ some (normalise_user_plane_spec m)
unfolding user_plane_spec_to_c user_plane_spec_to_proto
user_plane_spec_round_trip m =
    rw (strings_round_trip m.supported_service_group, put_endpoint_round_trip m.default_endpoint)

-- A user plane comes back with its texts clipped to 63 bytes, its service groups cut to 16 and its
-- times cleared; all numbers, the maintenance request and the end point stay.
pub user_plane_round_trip :
    (m : ServiceGatewayUserPlane)
    → user_plane_to_proto (user_plane_to_c m) default_user_plane ≡ some (normalise_user_plane m)
unfolding user_plane_to_c user_plane_to_proto user_plane_status_to_c user_plane_status_to_proto
user_plane_round_trip m = rw (
  load-store m.name,
  metadata_round_trip m.metadata,
  load-store m.service_gateway_name,
  user_plane_spec_round_trip m.spec,
)

-- A traffic steering function comes back with its texts clipped to 63 bytes and its times cleared.
pub steering_function_round_trip :
    (m : TrafficSteeringFunction)
    → steering_function_to_proto (steering_function_to_c m) default_steering_function
      ≡ some (normalise_steering_function m)
unfolding steering_function_to_c steering_function_to_proto steering_spec_to_c
    steering_spec_to_proto
steering_function_round_trip m = rw (
  load-store m.name,
  metadata_round_trip m.metadata,
  put_endpoint_round_trip m.spec.default_endpoint,
)
