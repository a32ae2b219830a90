-- ===== src/CExample/Program.antt =====
-- The functions test_x of the example for each kind of item, the callbacks, test_subscribe and main.
use libupsf.Prelude.{ℕ, Bool, true, List, [], ◌∷◌, Option, none, some, ℤ, pos, negsuc}
use libupsf.Text.{Bytes}
use libupsf.MapField.{MapField}
use libupsf.Messages.{Timestamp}
use libupsf.Structs.{
  UpsfServiceGateway, UpsfUserPlane, UpsfShard, UpsfSessionContext, UpsfNetworkConnection,
  UpsfSteeringFunction,
}
use libupsf.Service.{Item, Stub}
use libupsf.Slots.{Slots, upsf_open, upsf_close}
use libupsf.Subscriber.{Callbacks, Called, upsf_subscribe}
use libupsf.Wrapper.Exports
use libupsf.Printing.Common.{codes}
use libupsf.Printing.Connection.{print_network_connection}
use libupsf.Printing.Gateway.{print_service_gateway, print_user_plane, print_steering_function}
use libupsf.Printing.Shard.{print_shard}
use libupsf.Printing.Session.{print_session_context}
use libupsf.CExample.Steps.{Action, pure, ◌>>=◌, ◌>>◌, dump_item, test_item}
use libupsf.CExample.Contents.{
  named_service_gateway, updated_service_gateway, created_user_plane, updated_user_plane,
  named_user_plane, named_shard, updated_shard, named_session_context, updated_session_context,
  created_network_connection, updated_network_connection, named_network_connection,
  created_steering_function, updated_steering_function, named_steering_function,
}

-- What the arrays on the stack hold when a function is entered: char buf[1024] and, in each list
-- function, items[64].
pub record Stack : Type 0 where
  pub buf : Bytes
  pub service_gateways : List UpsfServiceGateway
  pub service_gateway_user_planes : List UpsfUserPlane
  pub shards : List UpsfShard
  pub session_contexts : List UpsfSessionContext
  pub network_connections : List UpsfNetworkConnection
  pub traffic_steering_functions : List UpsfSteeringFunction

abbrev pub all_callbacks : Callbacks
all_callbacks = record {
  shard_cb = true;
  session_context_cb = true;
  network_connection_cb = true;
  service_gateway_user_plane_cb = true;
  traffic_steering_function_cb = true;
  service_gateway_cb = true;
}

module _ {World : Type 0} where
  -- if (test < 0) return -1; and the rest of main otherwise
  abbrev pub unless_failed : Action World (Option ℤ) → ℤ → Action World (Option ℤ)
  unless_failed rest (negsuc n) = pure (some (negsuc 0))
  unless_failed rest (pos n) = rest

  unfoldable pub run_tests :
      List (Action World ℤ) → Action World (Option ℤ) → Action World (Option ℤ)
  run_tests [] rest = rest
  run_tests (test ∷ tests) rest = do code ← test; unless_failed (run_tests tests rest) code

  abbrev pub finish : Slots → ℕ → Option ℤ → Action World (Option ℤ)
  finish slots tid none = pure none
  finish slots tid (some (negsuc n)) = pure (some (negsuc 0))
  finish slots tid (some (pos n)) = unless_failed (pure (some (pos 0))) (upsf_close tid slots).1

module _ {World : Type 0} (network : Bytes → Stub World) (time : Timestamp → Bytes) (stack : Stack)
    ⦃texts : MapField Bytes⦄ ⦃flags : MapField Bool⦄ where
  unfoldable pub test_service_gateway : Slots → ℕ → Action World ℤ
  test_service_gateway slots tid =
      test_item network slots tid Exports.service_gateway (print_service_gateway time) stack.buf
        stack.service_gateways (codes "service_gateway") (codes "service_gateway")
        named_service_gateway updated_service_gateway named_service_gateway

  unfoldable pub test_service_gateway_user_plane : Slots → ℕ → Action World ℤ
  test_service_gateway_user_plane slots tid =
      test_item network slots tid Exports.service_gateway_user_plane (print_user_plane time)
        stack.buf stack.service_gateway_user_planes (codes "service_gateway_user_plane")
        (codes "service_gateway_user_plane") created_user_plane updated_user_plane named_user_plane

  unfoldable pub test_shard : Slots → ℕ → Action World ℤ
  test_shard slots tid =
      test_item network slots tid Exports.shard (print_shard time) stack.buf stack.shards
        (codes "shard") (codes "shard") named_shard updated_shard named_shard

  unfoldable pub test_session_context : Slots → ℕ → Action World ℤ
  test_session_context slots tid =
      test_item network slots tid Exports.session_context (print_session_context time) stack.buf
        stack.session_contexts (codes "session_context") (codes "session_context")
        named_session_context updated_session_context named_session_context

  unfoldable pub test_network_connection : Slots → ℕ → Action World ℤ
  test_network_connection slots tid =
      test_item network slots tid Exports.network_connection (print_network_connection time)
        stack.buf stack.network_connections (codes "network_connection")
        (codes "network connection") created_network_connection updated_network_connection
        named_network_connection

  unfoldable pub test_traffic_steering_function : Slots → ℕ → Action World ℤ
  test_traffic_steering_function slots tid =
      test_item network slots tid Exports.traffic_steering_function (print_steering_function time)
        stack.buf stack.traffic_steering_functions (codes "traffic_steering_function")
        (codes "traffic steering function") created_steering_function updated_steering_function
        named_steering_function

  -- The callbacks print the item that they are called with.
  unfoldable pub call_back : Called → Action World Unit
  call_back (Called.service_gateway c) =
      dump_item Exports.service_gateway (print_service_gateway time) stack.buf
        (codes "callback: service gateway") c
  call_back (Called.service_gateway_user_plane c) =
      dump_item Exports.service_gateway_user_plane (print_user_plane time) stack.buf
        (codes "callback: service gateway user plane") c
  call_back (Called.shard c) =
      dump_item Exports.shard (print_shard time) stack.buf (codes "callback: shard") c
  call_back (Called.session_context c) =
      dump_item Exports.session_context (print_session_context time) stack.buf
        (codes "callback: session context") c
  call_back (Called.network_connection c) =
      dump_item Exports.network_connection (print_network_connection time) stack.buf
        (codes "callback: network connection") c
  call_back (Called.traffic_steering_function c) =
      dump_item Exports.traffic_steering_function (print_steering_function time) stack.buf
        (codes "callback: traffic steering function") c

  unfoldable pub call_back_all : List Called → Action World Unit
  call_back_all [] = pure tt
  call_back_all (c ∷ called) = do call_back c; call_back_all called

  -- The subscription is served the rounds; without a result it does not return. The call of the library
  -- returns -1 for a failure, which test_subscribe passes on.
  unfoldable pub test_subscribe : List (List Item × Bool) → Action World (Option ℤ)
  test_subscribe rounds = do
    call_back_all (upsf_subscribe all_callbacks rounds).0
    pure (elim (upsf_subscribe all_callbacks rounds).1 [
      | none ↦ none
      | some (negsuc n) ↦ some (negsuc 0)
      | some (pos n) ↦ some (pos 0)
    ])

  -- main, for the thread `tid`: its result, if it returns.
  unfoldable pub main : Slots → ℕ → List (List Item × Bool) → Action World (Option ℤ)
  main slots tid rounds =
      let opened = upsf_open (codes "127.0.0.1") (pos 50051) tid slots in
      run_tests
        (pure opened.1
          ∷ test_service_gateway opened.0 tid
          ∷ test_service_gateway_user_plane opened.0 tid
          ∷ test_shard opened.0 tid
          ∷ test_session_context opened.0 tid
          ∷ test_network_connection opened.0 tid
          ∷ test_traffic_steering_function opened.0 tid
          ∷ [])
        (do result ← test_subscribe rounds; finish opened.0 tid result)
