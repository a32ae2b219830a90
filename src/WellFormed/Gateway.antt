-- ===== src/WellFormed/Gateway.antt =====
-- Service gateways, user planes and traffic steering functions that can be read.
use libupsf.Messages.{
  ServiceGateway, ServiceGatewayUserPlane, UserPlaneSpec, TrafficSteeringFunction,
}
use libupsf.Structs.{
  UpsfServiceGateway, UpsfUserPlane, UpsfUserPlaneSpec, UpsfSteeringFunction, zero_endpoint,
}
use libupsf.Mapping.Gateway.{
  service_gateway_to_c, service_gateway_to_proto, user_plane_spec_to_c, user_plane_spec_to_proto,
  user_plane_to_c, user_plane_to_proto, steering_spec_to_c, steering_spec_to_proto,
  steering_function_to_c, steering_function_to_proto,
}
use libupsf.WellFormed.Arrays.{
  IsDefined, IsDefined-some, IsDefined-bind, IsTerminated, Holds, store-IsTerminated, strings-Holds,
  strings-IsDefined,
}
use libupsf.WellFormed.Endpoint.{
  IsReadableEndpoint, IsReadableMetadata, metadata_to_c-IsReadableMetadata,
  metadata_to_proto-IsDefined, put_endpoint-IsReadableEndpoint, endpoint_to_proto-IsDefined,
}

pub record IsReadableGateway (c : UpsfServiceGateway) : Type 0 where
  pub name : IsTerminated c.name
  pub metadata : IsReadableMetadata c.metadata

pub record IsReadableUserPlaneSpec (c : UpsfUserPlaneSpec) : Type 0 where
  pub groups : Holds IsTerminated c.supported_service_group_size c.supported_service_group
  pub endpoint : IsReadableEndpoint c.default_endpoint

pub record IsReadableUserPlane (c : UpsfUserPlane) : Type 0 where
  pub name : IsTerminated c.name
  pub metadata : IsReadableMetadata c.metadata
  pub service_gateway_name : IsTerminated c.service_gateway_name
  pub spec : IsReadableUserPlaneSpec c.spec

pub record IsReadableSteering (c : UpsfSteeringFunction) : Type 0 where
  pub name : IsTerminated c.name
  pub metadata : IsReadableMetadata c.metadata
  pub endpoint : IsReadableEndpoint c.spec.default_endpoint

pub service_gateway_to_c-IsReadableGateway :
    (m : ServiceGateway) → IsReadableGateway (service_gateway_to_c m)
unfolding service_gateway_to_c
service_gateway_to_c-IsReadableGateway m = record {
  name = store-IsTerminated m.name;
  metadata = metadata_to_c-IsReadableMetadata m.metadata;
}

pub service_gateway_to_proto-IsDefined :
    (c : UpsfServiceGateway) (to : ServiceGateway)
    → IsReadableGateway c
    → IsDefined (service_gateway_to_proto c to)
unfolding service_gateway_to_proto
service_gateway_to_proto-IsDefined c to h = IsDefined-bind _ _ h.name λ n.
    IsDefined-bind _ _ (metadata_to_proto-IsDefined c.metadata to.metadata h.metadata)
      λ d. IsDefined-some _

user_plane_spec_to_c-IsReadable :
    (m : UserPlaneSpec) → IsReadableUserPlaneSpec (user_plane_spec_to_c m)
unfolding user_plane_spec_to_c
user_plane_spec_to_c-IsReadable m = record {
  groups = strings-Holds m.supported_service_group;
  endpoint = put_endpoint-IsReadableEndpoint m.default_endpoint zero_endpoint;
}

-- The structure that a user plane is mapped to has only terminated strings, at most 16 service groups
-- in its array of 16, and an end point whose union holds what its type says.
pub user_plane_to_c-IsReadableUserPlane :
    (m : ServiceGatewayUserPlane) → IsReadableUserPlane (user_plane_to_c m)
unfolding user_plane_to_c
user_plane_to_c-IsReadableUserPlane m = record {
  name = store-IsTerminated m.name;
  metadata = metadata_to_c-IsReadableMetadata m.metadata;
  service_gateway_name = store-IsTerminated m.service_gateway_name;
  spec = user_plane_spec_to_c-IsReadable m.spec;
}

user_plane_spec_to_proto-IsDefined :
    (c : UpsfUserPlaneSpec) (to : UserPlaneSpec)
    → IsReadableUserPlaneSpec c
    → IsDefined (user_plane_spec_to_proto c to)
unfolding user_plane_spec_to_proto
user_plane_spec_to_proto-IsDefined c to h = IsDefined-bind _ _ (strings-IsDefined _ _ h.groups) λ g.
    IsDefined-bind _ _ (endpoint_to_proto-IsDefined _ to.default_endpoint h.endpoint)
      λ e. IsDefined-some _

-- A readable user plane of any caller is mapped to a message without an undefined read.
pub user_plane_to_proto-IsDefined :
    (c : UpsfUserPlane) (to : ServiceGatewayUserPlane)
    → IsReadableUserPlane c
    → IsDefined (user_plane_to_proto c to)
unfolding user_plane_to_proto
user_plane_to_proto-IsDefined c to h = IsDefined-bind _ _ h.name λ n.
    IsDefined-bind _ _ (metadata_to_proto-IsDefined c.metadata to.metadata h.metadata) λ d.
      IsDefined-bind _ _ h.service_gateway_name λ g.
        IsDefined-bind _ _ (user_plane_spec_to_proto-IsDefined c.spec to.spec h.spec)
          λ s. IsDefined-some _

pub steering_function_to_c-IsReadableSteering :
    (m : TrafficSteeringFunction) → IsReadableSteering (steering_function_to_c m)
unfolding steering_function_to_c steering_spec_to_c
steering_function_to_c-IsReadableSteering m = record {
  name = store-IsTerminated m.name;
  metadata = metadata_to_c-IsReadableMetadata m.metadata;
  endpoint = put_endpoint-IsReadableEndpoint m.spec.default_endpoint zero_endpoint;
}

pub steering_function_to_proto-IsDefined :
    (c : UpsfSteeringFunction) (to : TrafficSteeringFunction)
    → IsReadableSteering c
    → IsDefined (steering_function_to_proto c to)
unfolding steering_function_to_proto steering_spec_to_proto
steering_function_to_proto-IsDefined c to h = IsDefined-bind _ _ h.name λ n.
    IsDefined-bind _ _ (metadata_to_proto-IsDefined c.metadata to.metadata h.metadata) λ d.
      IsDefined-bind _ _
        (IsDefined-bind _ _
          (endpoint_to_proto-IsDefined c.spec.default_endpoint to.spec.default_endpoint h.endpoint)
          λ e. IsDefined-some _)
        λ s. IsDefined-some _
