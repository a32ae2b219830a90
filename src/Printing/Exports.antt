-- ===== src/Printing/Exports.antt =====
-- The dump functions that upsf/upsf.h exports for each kind of item.
use libupsf.Prelude.{Bool, Option}
use libupsf.Text.{Bytes}
use libupsf.MapField.{MapField}
use libupsf.Messages.{Timestamp}
use libupsf.Structs.{
  UpsfServiceGateway, UpsfUserPlane, UpsfSteeringFunction, UpsfNetworkConnection, UpsfShard,
  UpsfSessionContext,
}
use libupsf.Wrapper.{Returned}
use libupsf.Wrapper.Exports
use libupsf.Printing.Connection.{print_network_connection}
use libupsf.Printing.Gateway.{print_service_gateway, print_user_plane, print_steering_function}
use libupsf.Printing.Shard.{print_shard}
use libupsf.Printing.Session.{print_session_context}
use libupsf.Printing.Dump.{upsf_dump}

module _ (time : Timestamp → Bytes) where
  unfoldable pub upsf_dump_service_gateway :
      Option Bytes → Option UpsfServiceGateway → Option (Returned Bytes)
  unfolding upsf_dump print_service_gateway
  upsf_dump_service_gateway = upsf_dump Exports.service_gateway (print_service_gateway time)

  unfoldable pub upsf_dump_service_gateway_user_plane :
      Option Bytes → Option UpsfUserPlane → Option (Returned Bytes)
  unfolding upsf_dump print_user_plane
  upsf_dump_service_gateway_user_plane =
      upsf_dump Exports.service_gateway_user_plane (print_user_plane time)

  unfoldable pub upsf_dump_traffic_steering_function :
      Option Bytes → Option UpsfSteeringFunction → Option (Returned Bytes)
  unfolding upsf_dump print_steering_function
  upsf_dump_traffic_steering_function =
      upsf_dump Exports.traffic_steering_function (print_steering_function time)

  unfoldable pub upsf_dump_network_connection :
      ⦃ops : MapField Bool⦄ → Option Bytes → Option UpsfNetworkConnection → Option (Returned Bytes)
  unfolding upsf_dump print_network_connection
  upsf_dump_network_connection =
      upsf_dump Exports.network_connection (print_network_connection time)

  unfoldable pub upsf_dump_shard :
      ⦃ops : MapField Bytes⦄ → Option Bytes → Option UpsfShard → Option (Returned Bytes)
  unfolding upsf_dump print_shard
  upsf_dump_shard = upsf_dump Exports.shard (print_shard time)

  unfoldable pub upsf_dump_session_context :
      Option Bytes → Option UpsfSessionContext → Option (Returned Bytes)
  unfolding upsf_dump print_session_context
  upsf_dump_session_context = upsf_dump Exports.session_context (print_session_context time)
