-- ===== src/Client/Overloads.antt =====
-- The overloads of class UpsfClient in upsf/upsf.hpp, one for each kind of item.
use libupsf.Prelude.{Bool, List}
use libupsf.Text.{Bytes}
use libupsf.Messages.{
  Shard, SessionContext, NetworkConnection, ServiceGatewayUserPlane, TrafficSteeringFunction,
  ServiceGateway,
}
use libupsf.Service.{
  ListMergeStrategy, Stub, shard_kind, session_context_kind, network_connection_kind,
  user_plane_kind, steering_function_kind, service_gateway_kind,
}
use libupsf.Client.{create, update, read, read_all}

module _ {World : Type 0} (stub : Stub World) where
  unfoldable pub create_shard : Shard → World → World × Shard × Bool
  unfolding create
  create_shard = create stub shard_kind

  unfoldable pub create_session_context : SessionContext → World → World × SessionContext × Bool
  unfolding create
  create_session_context = create stub session_context_kind

  unfoldable pub create_network_connection :
      NetworkConnection → World → World × NetworkConnection × Bool
  unfolding create
  create_network_connection = create stub network_connection_kind

  unfoldable pub create_user_plane :
      ServiceGatewayUserPlane → World → World × ServiceGatewayUserPlane × Bool
  unfolding create
  create_user_plane = create stub user_plane_kind

  unfoldable pub create_steering_function :
      TrafficSteeringFunction → World → World × TrafficSteeringFunction × Bool
  unfolding create
  create_steering_function = create stub steering_function_kind

  unfoldable pub create_service_gateway : ServiceGateway → World → World × ServiceGateway × Bool
  unfolding create
  create_service_gateway = create stub service_gateway_kind

  unfoldable pub update_shard : Shard → Shard → ListMergeStrategy → World → World × Shard × Bool
  unfolding update
  update_shard = update stub shard_kind

  unfoldable pub update_session_context :
      SessionContext → SessionContext → ListMergeStrategy → World → World × SessionContext × Bool
  unfolding update
  update_session_context = update stub session_context_kind

  unfoldable pub update_network_connection :
      NetworkConnection
      → NetworkConnection
      → ListMergeStrategy
      → World
      → World × NetworkConnection × Bool
  unfolding update
  update_network_connection = update stub network_connection_kind

  unfoldable pub update_user_plane :
      ServiceGatewayUserPlane
      → ServiceGatewayUserPlane
      → ListMergeStrategy
      → World
      → World × ServiceGatewayUserPlane × Bool
  unfolding update
  update_user_plane = update stub user_plane_kind

  unfoldable pub update_steering_function :
      TrafficSteeringFunction
      → TrafficSteeringFunction
      → ListMergeStrategy
      → World
      → World × TrafficSteeringFunction × Bool
  unfolding update
  update_steering_function = update stub steering_function_kind

  unfoldable pub update_service_gateway :
      ServiceGateway → ServiceGateway → ListMergeStrategy → World → World × ServiceGateway × Bool
  unfolding update
  update_service_gateway = update stub service_gateway_kind

  unfoldable pub read_shard : Bytes → Shard → World → World × Shard × Bool
  unfolding read
  read_shard = read stub shard_kind

  unfoldable pub read_session_context :
      Bytes → SessionContext → World → World × SessionContext × Bool
  unfolding read
  read_session_context = read stub session_context_kind

  unfoldable pub read_network_connection :
      Bytes → NetworkConnection → World → World × NetworkConnection × Bool
  unfolding read
  read_network_connection = read stub network_connection_kind

  unfoldable pub read_user_plane :
      Bytes → ServiceGatewayUserPlane → World → World × ServiceGatewayUserPlane × Bool
  unfolding read
  read_user_plane = read stub user_plane_kind

  unfoldable pub read_steering_function :
      Bytes → TrafficSteeringFunction → World → World × TrafficSteeringFunction × Bool
  unfolding read
  read_steering_function = read stub steering_function_kind

  unfoldable pub read_service_gateway :
      Bytes → ServiceGateway → World → World × ServiceGateway × Bool
  unfolding read
  read_service_gateway = read stub service_gateway_kind

  unfoldable pub read_all_shard : List Shard → World → World × List Shard × Bool
  unfolding read_all
  read_all_shard = read_all stub shard_kind

  unfoldable pub read_all_session_context :
      List SessionContext → World → World × List SessionContext × Bool
  unfolding read_all
  read_all_session_context = read_all stub session_context_kind

  unfoldable pub read_all_network_connection :
      List NetworkConnection → World → World × List NetworkConnection × Bool
  unfolding read_all
  read_all_network_connection = read_all stub network_connection_kind

  unfoldable pub read_all_user_plane :
      List ServiceGatewayUserPlane → World → World × List ServiceGatewayUserPlane × Bool
  unfolding read_all
  read_all_user_plane = read_all stub user_plane_kind

  unfoldable pub read_all_steering_function :
      List TrafficSteeringFunction → World → World × List TrafficSteeringFunction × Bool
  unfolding read_all
  read_all_steering_function = read_all stub steering_function_kind

  unfoldable pub read_all_service_gateway :
      List ServiceGateway → World → World × List ServiceGateway × Bool
  unfolding read_all
  read_all_service_gateway = read_all stub service_gateway_kind
