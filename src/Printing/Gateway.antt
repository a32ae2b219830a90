-- ===== src/Printing/Gateway.antt =====
-- The streams of service gateways, user planes and traffic steering functions.
use libupsf.Prelude.{[], ◌∷◌, Option, some, ◌>>=◌}
use libupsf.Text.{Bytes, until_nul}
use libupsf.Messages.{
  Timestamp, ServiceGateway, ServiceGatewayUserPlane, UserPlaneSpec, UserPlaneStatus,
  TrafficSteeringFunction, SteeringSpec,
}
use libupsf.Slots.{show_int}
use libupsf.Printing.Common.{codes, texts, print_indexed, print_metadata, print_maintenance}
use libupsf.Printing.Connection.{print_endpoint}

unfoldable pub print_steering_spec : SteeringSpec → Bytes
unfolding texts
print_steering_spec m =
    texts (
      codes "Spec("
      ∷ codes "default_endpoint="
      ∷ print_endpoint m.default_endpoint
      ∷ codes ")"
      ∷ [])

unfoldable pub print_user_plane_spec : UserPlaneSpec → Bytes
unfolding texts until_nul print_indexed
print_user_plane_spec m = texts (
    codes "Spec("
    ∷ codes "max_session_count="
    ∷ show_int m.max_session_count
    ∷ codes ", "
    ∷ codes "max_shards="
    ∷ show_int m.max_shards
    ∷ codes ", "
    ∷ codes "SupportedServiceGroup("
    ∷ print_indexed until_nul 0 m.supported_service_group
    ∷ codes "), "
    ∷ codes "default_endpoint="
    ∷ print_endpoint m.default_endpoint
    ∷ codes ")"
    ∷ [])

unfoldable pub print_user_plane_status : UserPlaneStatus → Bytes
unfolding texts
print_user_plane_status m = texts (
    codes "Status("
    ∷ codes "allocated_session_count="
    ∷ show_int m.allocated_session_count
    ∷ codes ", "
    ∷ codes "allocated_shards="
    ∷ show_int m.allocated_shards
    ∷ codes ")"
    ∷ [])

module _ (time : Timestamp → Bytes) where
  unfoldable pub print_service_gateway : ServiceGateway → Option Bytes
  unfolding texts until_nul
  print_service_gateway m = do
    metadata ← print_metadata time m.metadata
    some (
        texts (
          codes "ServiceGateway("
          ∷ codes "name="
          ∷ until_nul m.name
          ∷ codes ", "
          ∷ metadata
          ∷ codes ")"
          ∷ []))

  unfoldable pub print_steering_function : TrafficSteeringFunction → Option Bytes
  unfolding texts until_nul
  print_steering_function m = do
    metadata ← print_metadata time m.metadata
    some (
        texts (
          codes "TrafficSteeringFunction("
          ∷ codes "name="
          ∷ until_nul m.name
          ∷ codes ", "
          ∷ metadata
          ∷ codes ", "
          ∷ print_steering_spec m.spec
          ∷ codes ")"
          ∷ []))

  unfoldable pub print_user_plane : ServiceGatewayUserPlane → Option Bytes
  unfolding texts until_nul
  print_user_plane m = do
    metadata ← print_metadata time m.metadata
    maintenance ← print_maintenance m.maintenance
    some (
        texts (
          codes "ServiceGatewayUserPlane("
          ∷ codes "name="
          ∷ until_nul m.name
          ∷ codes ", "
          ∷ codes "sg_name="
          ∷ until_nul m.service_gateway_name
          ∷ codes ", "
          ∷ metadata
          ∷ codes ", "
          ∷ maintenance
          ∷ codes ", "
          ∷ print_user_plane_spec m.spec
          ∷ codes ", "
          ∷ print_user_plane_status m.status
          ∷ codes ")"
          ∷ []))
