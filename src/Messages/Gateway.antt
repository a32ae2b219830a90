-- ===== src/Messages/Gateway.antt =====
-- Messages ServiceGateway, ServiceGatewayUserPlane and TrafficSteeringFunction.
use libupsf.Prelude.{List, [], ℤ, pos}
use libupsf.Text.{Bytes}
use libupsf.Messages.Common.{MetaData, Maintenance, default_meta_data, default_maintenance}
use libupsf.Messages.Connection.{Endpoint, default_endpoint}

pub record ServiceGateway : Type 0 where
  pub name : Bytes
  pub metadata : MetaData

pub record UserPlaneSpec : Type 0 where
  pub max_session_count : ℤ
  pub max_shards : ℤ
  pub supported_service_group : List Bytes
  pub default_endpoint : Endpoint

pub record UserPlaneStatus : Type 0 where
  pub allocated_session_count : ℤ
  pub allocated_shards : ℤ

pub record ServiceGatewayUserPlane : Type 0 where
  pub name : Bytes
  pub service_gateway_name : Bytes
  pub metadata : MetaData
  pub maintenance : Maintenance
  pub spec : UserPlaneSpec
  pub status : UserPlaneStatus

pub record SteeringSpec : Type 0 where
  pub default_endpoint : Endpoint

pub record TrafficSteeringFunction : Type 0 where
  pub name : Bytes
  pub metadata : MetaData
  pub spec : SteeringSpec

abbrev pub default_service_gateway : ServiceGateway
default_service_gateway = record { name = []; metadata = default_meta_data }

abbrev pub default_user_plane_spec : UserPlaneSpec
default_user_plane_spec = record {
  max_session_count = pos 0;
  max_shards = pos 0;
  supported_service_group = [];
  default_endpoint = default_endpoint;
}

abbrev pub default_user_plane_status : UserPlaneStatus
default_user_plane_status = record { allocated_session_count = pos 0; allocated_shards = pos 0 }

abbrev pub default_user_plane : ServiceGatewayUserPlane
default_user_plane = record {
  name = [];
  service_gateway_name = [];
  metadata = default_meta_data;
  maintenance = default_maintenance;
  spec = default_user_plane_spec;
  status = default_user_plane_status;
}

abbrev pub default_steering_function : TrafficSteeringFunction
default_steering_function = record {
  name = [];
  metadata = default_meta_data;
  spec = record { default_endpoint = default_endpoint };
}
