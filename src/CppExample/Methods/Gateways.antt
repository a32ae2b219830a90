-- ===== src/CppExample/Methods/Gateways.antt =====
-- The methods for service gateways, user planes and traffic steering functions.
use libupsf.Prelude.{Bool}
use libupsf.Text.{Bytes}
use libupsf.Messages.{
  Timestamp, default_service_gateway, default_user_plane, default_steering_function,
}
use libupsf.Service.{
  Stub, ListMergeStrategy, service_gateway_kind, user_plane_kind, steering_function_kind,
}
use libupsf.Printing.Common.{codes}
use libupsf.CppExample.Action.{Action, pure}
use libupsf.CppExample.Steps.{
  list_items, read_item, item_exists, create_new, update_item, create_item, delete_item,
}
use libupsf.CppExample.Requests.{UpsfCppExample, sg_request, up_request, tsf_request}

module _ (time : Timestamp → Bytes) {World : Type 0} (stub : Stub World) (e : UpsfCppExample) where
  unfoldable pub sg_list : Action World Unit
  sg_list =
      list_items time stub service_gateway_kind (codes "ServiceGateway")
        (codes "failure: list service gateways")

  unfoldable pub sg_read : Bytes → Action World Unit
  sg_read name =
      read_item time stub service_gateway_kind (codes "ServiceGateway")
        (codes "failure: read service gateway") name

  unfoldable pub sg_exists : Bytes → Action World Bool
  sg_exists name = item_exists stub service_gateway_kind name

  unfoldable pub sg_create : Bytes → Action World Unit
  sg_create name =
      create_item (sg_exists name)
        (create_new time stub service_gateway_kind (codes "ServiceGateway")
          (codes "failure: create service gateway") name
          (record default_service_gateway { name = name }))
        (update_item time stub service_gateway_kind (codes "ServiceGateway")
          (codes "failure: update service gateway") name ListMergeStrategy.replace
          (sg_request e name) (pure tt))

  unfoldable pub sg_delete : Bytes → Action World Unit
  sg_delete name =
      delete_item time stub (codes "ServiceGateway") (codes "failure: delete service gateway") name

  unfoldable pub up_list : Action World Unit
  up_list =
      list_items time stub user_plane_kind (codes "ServiceGatewayUserPlane")
        (codes "failure: list service gateway user planes")

  unfoldable pub up_read : Bytes → Action World Unit
  up_read name =
      read_item time stub user_plane_kind (codes "ServiceGatewayUserPlane")
        (codes "failure: read service gateway user plane") name

  unfoldable pub up_exists : Bytes → Action World Bool
  up_exists name = item_exists stub user_plane_kind name

  unfoldable pub up_create : Bytes → Bytes → Action World Unit
  up_create name desc =
      create_item (up_exists name)
        (create_new time stub user_plane_kind (codes "ServiceGatewayUserPlane")
          (codes "failure: create service gateway user plane") name
          (record default_user_plane { name = name }))
        (update_item time stub user_plane_kind (codes "ServiceGatewayUserPlane")
          (codes "failure: update service gateway user plane") name ListMergeStrategy.union
          (up_request e name desc) (pure tt))

  unfoldable pub up_delete : Bytes → Action World Unit
  up_delete name =
      delete_item time stub (codes "ServiceGatewayUserPlane")
        (codes "failure: delete service gateway user plane") name

  unfoldable pub tsf_list : Action World Unit
  tsf_list =
      list_items time stub steering_function_kind (codes "TrafficSteeringFunctions")
        (codes "failure: list traffic steering functions")

  unfoldable pub tsf_read : Bytes → Action World Unit
  tsf_read name =
      read_item time stub steering_function_kind (codes "TrafficSteeringFunction")
        (codes "failure: read traffic steering function") name

  unfoldable pub tsf_exists : Bytes → Action World Bool
  tsf_exists name = item_exists stub steering_function_kind name

  unfoldable pub tsf_create : Bytes → Action World Unit
  tsf_create name =
      create_item (tsf_exists name)
        (create_new time stub steering_function_kind (codes "TrafficSteeringFunction")
          (codes "failure: create traffic steering function") name
          (record default_steering_function { name = name }))
        (update_item time stub steering_function_kind (codes "TrafficSteeringFunction")
          (codes "failure: update traffic steering function") name ListMergeStrategy.union
          (tsf_request e name) (pure tt))

  unfoldable pub tsf_delete : Bytes → Action World Unit
  tsf_delete name =
      delete_item time stub (codes "TrafficSteeringFunction")
        (codes "failure: delete traffic steering function") name
