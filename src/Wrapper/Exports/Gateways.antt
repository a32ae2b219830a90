-- ===== src/Wrapper/Exports/Gateways.antt =====
-- The functions of upsf/upsf.h for service gateways, user planes and traffic steering functions.
use libupsf.Prelude.{ℕ, List, Option, ℤ}
use libupsf.Text.{Bytes}
use libupsf.Structs.{UpsfServiceGateway, UpsfUserPlane, UpsfSteeringFunction}
use libupsf.Service.{Stub}
use libupsf.Slots.{Slots}
use libupsf.Wrapper.{Returned, upsf_create, upsf_update, upsf_get, upsf_delete, upsf_list}
use libupsf.Wrapper.Exports.{service_gateway, service_gateway_user_plane, traffic_steering_function}

module _ {World : Type 0} (network : Bytes → Stub World) where
  unfoldable pub upsf_create_service_gateway :
      Slots → ℕ → Option UpsfServiceGateway → World → Option (World × Returned UpsfServiceGateway)
  unfolding upsf_create
  upsf_create_service_gateway = upsf_create network service_gateway

  unfoldable pub upsf_update_service_gateway :
      Slots → ℕ → Option UpsfServiceGateway → World → Option (World × Returned UpsfServiceGateway)
  unfolding upsf_update
  upsf_update_service_gateway = upsf_update network service_gateway

  unfoldable pub upsf_get_service_gateway :
      Slots → ℕ → Option UpsfServiceGateway → World → Option (World × Returned UpsfServiceGateway)
  unfolding upsf_get
  upsf_get_service_gateway = upsf_get network service_gateway

  unfoldable pub upsf_delete_service_gateway :
      Slots → ℕ → Option UpsfServiceGateway → World → Option (World × ℤ)
  unfolding upsf_delete
  upsf_delete_service_gateway = upsf_delete network service_gateway

  unfoldable pub upsf_list_service_gateways :
      Slots
      → ℕ
      → Option (List UpsfServiceGateway)
      → World
      → World × Option (List UpsfServiceGateway) × ℤ
  unfolding upsf_list
  upsf_list_service_gateways = upsf_list network service_gateway

  unfoldable pub upsf_create_service_gateway_user_plane :
      Slots → ℕ → Option UpsfUserPlane → World → Option (World × Returned UpsfUserPlane)
  unfolding upsf_create
  upsf_create_service_gateway_user_plane = upsf_create network service_gateway_user_plane

  unfoldable pub upsf_update_service_gateway_user_plane :
      Slots → ℕ → Option UpsfUserPlane → World → Option (World × Returned UpsfUserPlane)
  unfolding upsf_update
  upsf_update_service_gateway_user_plane = upsf_update network service_gateway_user_plane

  unfoldable pub upsf_get_service_gateway_user_plane :
      Slots → ℕ → Option UpsfUserPlane → World → Option (World × Returned UpsfUserPlane)
  unfolding upsf_get
  upsf_get_service_gateway_user_plane = upsf_get network service_gateway_user_plane

  unfoldable pub upsf_delete_service_gateway_user_plane :
      Slots → ℕ → Option UpsfUserPlane → World → Option (World × ℤ)
  unfolding upsf_delete
  upsf_delete_service_gateway_user_plane = upsf_delete network service_gateway_user_plane

  unfoldable pub upsf_list_service_gateway_user_planes :
      Slots → ℕ → Option (List UpsfUserPlane) → World → World × Option (List UpsfUserPlane) × ℤ
  unfolding upsf_list
  upsf_list_service_gateway_user_planes = upsf_list network service_gateway_user_plane

  unfoldable pub upsf_create_traffic_steering_function :
      Slots
      → ℕ
      → Option UpsfSteeringFunction
      → World
      → Option (World × Returned UpsfSteeringFunction)
  unfolding upsf_create
  upsf_create_traffic_steering_function = upsf_create network traffic_steering_function

  unfoldable pub upsf_update_traffic_steering_function :
      Slots
      → ℕ
      → Option UpsfSteeringFunction
      → World
      → Option (World × Returned UpsfSteeringFunction)
  unfolding upsf_update
  upsf_update_traffic_steering_function = upsf_update network traffic_steering_function

  unfoldable pub upsf_get_traffic_steering_function :
      Slots
      → ℕ
      → Option UpsfSteeringFunction
      → World
      → Option (World × Returned UpsfSteeringFunction)
  unfolding upsf_get
  upsf_get_traffic_steering_function = upsf_get network traffic_steering_function

  unfoldable pub upsf_delete_traffic_steering_function :
      Slots → ℕ → Option UpsfSteeringFunction → World → Option (World × ℤ)
  unfolding upsf_delete
  upsf_delete_traffic_steering_function = upsf_delete network traffic_steering_function

  unfoldable pub upsf_list_traffic_steering_functions :
      Slots
      → ℕ
      → Option (List UpsfSteeringFunction)
      → World
      → World × Option (List UpsfSteeringFunction) × ℤ
  unfolding upsf_list
  upsf_list_traffic_steering_functions = upsf_list network traffic_steering_function
