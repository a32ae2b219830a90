-- ===== src/Structs/Gateway.antt =====
-- upsf_service_gateway_t, upsf_service_gateway_user_plane_t and upsf_traffic_steering_function_t.
use libupsf.Prelude.{ℕ, List, ℤ, pos}
use libupsf.Text.{UpsfString, zero_string}
use libupsf.Structs.Common.{
  UpsfMetadata, UpsfMaintenance, zero_metadata, zero_maintenance, zero_strings,
}
use libupsf.Structs.Connection.{UpsfEndpoint, zero_endpoint}

pub record UpsfServiceGateway : Type 0 where
  pub name : UpsfString
  pub metadata : UpsfMetadata

pub record UpsfUserPlaneSpec : Type 0 where
  pub max_session_count : ℤ
  pub max_shards : ℤ
  pub supported_service_group : List UpsfString
  pub supported_service_group_size : ℕ
  pub default_endpoint : UpsfEndpoint

pub record UpsfUserPlaneStatus : Type 0 where
  pub allocated_session_count : ℤ
  pub allocated_shards : ℤ

pub record UpsfUserPlane : Type 0 where
  pub name : UpsfString
  pub metadata : UpsfMetadata
  pub service_gateway_name : UpsfString
  pub maintenance : UpsfMaintenance
  pub spec : UpsfUserPlaneSpec
  pub status : UpsfUserPlaneStatus

pub record UpsfSteeringSpec : Type 0 where
  pub default_endpoint : UpsfEndpoint

pub record UpsfSteeringFunction : Type 0 where
  pub name : UpsfString
  pub metadata : UpsfMetadata
  pub spec : UpsfSteeringSpec

unfoldable pub zero_service_gateway : UpsfServiceGateway
zero_service_gateway = record { name = zero_string; metadata = zero_metadata }

unfoldable pub zero_user_plane_spec : UpsfUserPlaneSpec
zero_user_plane_spec = record {
  max_session_count = pos 0;
  max_shards = pos 0;
  supported_service_group = zero_strings;
  supported_service_group_size = 0;
  default_endpoint = zero_endpoint;
}

abbrev pub zero_user_plane_status : UpsfUserPlaneStatus
zero_user_plane_status = record { allocated_session_count = pos 0; allocated_shards = pos 0 }

unfoldable pub zero_user_plane : UpsfUserPlane
zero_user_plane = record {
  name = zero_string;
  metadata = zero_metadata;
  service_gateway_name = zero_string;
  maintenance = zero_maintenance;
  spec = zero_user_plane_spec;
  status = zero_user_plane_status;
}

abbrev pub zero_steering_spec : UpsfSteeringSpec
zero_steering_spec = record { default_endpoint = zero_endpoint }

unfoldable pub zero_steering_function : UpsfSteeringFunction
zero_steering_function = record {
  name = zero_string;
  metadata = zero_metadata;
  spec = zero_steering_spec;
}
