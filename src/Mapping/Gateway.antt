-- ===== src/Mapping/Gateway.antt =====
-- Service gateways, their user planes and traffic steering functions in upsf/upsf_c_mapping.cpp.
use libupsf.Prelude.{◌++◌, Option, some, length, ◌>>=◌}
use libupsf.Text.{store, load}
use libupsf.Arrays.{clamp, fill, collect}
use libupsf.Messages.{
  ServiceGateway, ServiceGatewayUserPlane, UserPlaneSpec, UserPlaneStatus, TrafficSteeringFunction,
  SteeringSpec, Maintenance,
}
use libupsf.Structs.{
  UpsfServiceGateway, UpsfUserPlane, UpsfUserPlaneSpec, UpsfUserPlaneStatus, UpsfSteeringFunction,
  UpsfSteeringSpec, UpsfMaintenance, zero_service_gateway, zero_user_plane, zero_user_plane_spec,
  zero_user_plane_status, zero_steering_function, zero_steering_spec,
}
use libupsf.Mapping.Endpoint.{metadata_to_c, metadata_to_proto, endpoint_to_proto, put_endpoint}

unfoldable pub service_gateway_to_c : ServiceGateway → UpsfServiceGateway
unfolding zero_service_gateway
service_gateway_to_c from = record zero_service_gateway {
  name = store from.name zero_service_gateway.name;
  metadata = metadata_to_c from.metadata;
}

unfoldable pub service_gateway_to_proto :
    UpsfServiceGateway → ServiceGateway → Option ServiceGateway
service_gateway_to_proto from to = do
  name ← load from.name
  metadata ← metadata_to_proto from.metadata to.metadata
  some (record to { name = name; metadata = metadata })

unfoldable pub user_plane_spec_to_c : UserPlaneSpec → UpsfUserPlaneSpec
unfolding zero_user_plane_spec
user_plane_spec_to_c from =
    let size = clamp (length from.supported_service_group) in
    record zero_user_plane_spec {
      max_session_count = from.max_session_count;
      max_shards = from.max_shards;
      supported_service_group_size = size;
      supported_service_group =
          fill store size from.supported_service_group zero_user_plane_spec.supported_service_group;
      default_endpoint = put_endpoint from.default_endpoint zero_user_plane_spec.default_endpoint;
    }

unfoldable pub user_plane_spec_to_proto : UpsfUserPlaneSpec → UserPlaneSpec → Option UserPlaneSpec
user_plane_spec_to_proto from to = do
  groups ← collect load from.supported_service_group_size from.supported_service_group
  endpoint ← endpoint_to_proto from.default_endpoint to.default_endpoint
  some (record to {
    max_session_count = from.max_session_count;
    max_shards = from.max_shards;
    supported_service_group = to.supported_service_group ++ groups;
    default_endpoint = endpoint.0;
  })

unfoldable pub user_plane_status_to_c : UserPlaneStatus → UpsfUserPlaneStatus
user_plane_status_to_c from = record zero_user_plane_status {
  allocated_session_count = from.allocated_session_count;
  allocated_shards = from.allocated_shards;
}

unfoldable pub user_plane_status_to_proto : UpsfUserPlaneStatus → UserPlaneStatus → UserPlaneStatus
user_plane_status_to_proto from to = record to {
  allocated_session_count = from.allocated_session_count;
  allocated_shards = from.allocated_shards;
}

-- The stanza on maintenance.
unfoldable pub maintenance_to_c : Maintenance → UpsfMaintenance
maintenance_to_c from = record { maintenance_req = from.maintenance_req }

unfoldable pub maintenance_to_proto : UpsfMaintenance → Maintenance → Maintenance
maintenance_to_proto from to = record to { maintenance_req = from.maintenance_req }

unfoldable pub user_plane_to_c : ServiceGatewayUserPlane → UpsfUserPlane
unfolding zero_user_plane maintenance_to_c
user_plane_to_c from = record zero_user_plane {
  name = store from.name zero_user_plane.name;
  metadata = metadata_to_c from.metadata;
  service_gateway_name = store from.service_gateway_name zero_user_plane.service_gateway_name;
  maintenance = maintenance_to_c from.maintenance;
  spec = user_plane_spec_to_c from.spec;
  status = user_plane_status_to_c from.status;
}

unfoldable pub user_plane_to_proto :
    UpsfUserPlane → ServiceGatewayUserPlane → Option ServiceGatewayUserPlane
unfolding maintenance_to_proto
user_plane_to_proto from to = do
  name ← load from.name
  metadata ← metadata_to_proto from.metadata to.metadata
  service_gateway_name ← load from.service_gateway_name
  spec ← user_plane_spec_to_proto from.spec to.spec
  some (record to {
    name = name;
    metadata = metadata;
    service_gateway_name = service_gateway_name;
    maintenance = maintenance_to_proto from.maintenance to.maintenance;
    spec = spec;
    status = user_plane_status_to_proto from.status to.status;
  })

unfoldable pub steering_spec_to_c : SteeringSpec → UpsfSteeringSpec
steering_spec_to_c from = record zero_steering_spec {
  default_endpoint = put_endpoint from.default_endpoint zero_steering_spec.default_endpoint;
}

unfoldable pub steering_spec_to_proto : UpsfSteeringSpec → SteeringSpec → Option SteeringSpec
steering_spec_to_proto from to = do
  endpoint ← endpoint_to_proto from.default_endpoint to.default_endpoint
  some (record to { default_endpoint = endpoint.0 })

unfoldable pub steering_function_to_c : TrafficSteeringFunction → UpsfSteeringFunction
unfolding zero_steering_function
steering_function_to_c from = record zero_steering_function {
  name = store from.name zero_steering_function.name;
  metadata = metadata_to_c from.metadata;
  spec = steering_spec_to_c from.spec;
}

unfoldable pub steering_function_to_proto :
    UpsfSteeringFunction → TrafficSteeringFunction → Option TrafficSteeringFunction
steering_function_to_proto from to = do
  name ← load from.name
  metadata ← metadata_to_proto from.metadata to.metadata
  spec ← steering_spec_to_proto from.spec to.spec
  some (record to { name = name; metadata = metadata; spec = spec })
