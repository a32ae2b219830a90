-- ===== src/Tests/Printing.antt =====
-- Texts of messages, and a dump into a small buffer.
use libupsf.Prelude.{◌≡◌, refl, true, [], ◌∷◌, some}
use libupsf.Text.{Bytes, until_nul}
use libupsf.Messages.{
  Timestamp, NetworkConnection, Shard, SessionContext, ServiceGateway, ServiceGatewayUserPlane,
  TrafficSteeringFunction,
}
use libupsf.Names.{upsf_derived_state_to_name}
use libupsf.Mapping.Gateway.{service_gateway_to_c}
use libupsf.RoundTrip.Gateway.{normalise_service_gateway, service_gateway_round_trip}
use libupsf.Wrapper.{filled}
use libupsf.Wrapper.Exports
use libupsf.Printing.Common.{print_metadata}
use libupsf.Printing.Connection.{print_network_connection}
use libupsf.Printing.Gateway.{print_service_gateway, print_user_plane, print_steering_function}
use libupsf.Printing.Shard.{print_shard}
use libupsf.Printing.Session.{print_session_context}
use libupsf.Printing.Plain.{is_plain, IsPlain}
use libupsf.Printing.Items.{all_items-IsPlain}
use libupsf.Printing.Dump.{upsf_dump, upsf_dump_lem}
use libupsf.Printing.Common.{codes}
use libupsf.Tests.Samples.{gateway}

-- A printer of times.
abbrev time : Timestamp → Bytes
time t = codes "now"

time_plain : (t : Timestamp) → is_plain (time t) ≡ true
unfolding is_plain
time_plain t = refl

abbrev gateway_text : Bytes
gateway_text =
    codes
      "ServiceGateway(name=sg-1, MetaData(desc=leased, DerivedState=active, created=now, last_updated=now))"

gateway_run : print_service_gateway time (normalise_service_gateway gateway) ≡ some gateway_text
unfolding print_service_gateway print_metadata until_nul upsf_derived_state_to_name
gateway_run = refl

all_items-IsPlain_example :
    ((m : ServiceGateway) → IsPlain (print_service_gateway time m))
    × ((m : ServiceGatewayUserPlane) → IsPlain (print_user_plane time m))
    × ((m : TrafficSteeringFunction) → IsPlain (print_steering_function time m))
    × ((m : NetworkConnection) → IsPlain (print_network_connection time m))
    × ((m : Shard) → IsPlain (print_shard time m))
    × ((m : SessionContext) → IsPlain (print_session_context time m))
all_items-IsPlain_example = all_items-IsPlain time time_plain

-- The buffer has three bytes, which are all written.
upsf_dump_lem_example :
    upsf_dump Exports.service_gateway
      (print_service_gateway time)
      (some (1 ∷ 2 ∷ 3 ∷ []))
      (some (service_gateway_to_c gateway))
    ≡ some (filled (codes "Ser"))
upsf_dump_lem_example =
    upsf_dump_lem Exports.service_gateway (print_service_gateway time)
      (all_items-IsPlain time time_plain).0 1 (2 ∷ 3 ∷ []) gateway_text
      (service_gateway_to_c gateway) (normalise_service_gateway gateway)
      (service_gateway_round_trip gateway) gateway_run
