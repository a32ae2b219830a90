-- ===== src/Tests/CProgram.antt =====
-- Runs of the C interface against a server that stores items, and of upsf_c_example.
use libupsf.Prelude.{
  ◌++◌, ◌≡◌, ◌≢◌, refl, true, false, List, [], ◌∷◌, none, some, pos, replicate, arith,
}
use libupsf.Text.{Bytes, until_nul, zero_string, load, read_string}
use libupsf.Messages.{ServiceGateway, default_service_gateway, Timestamp}
use libupsf.Mapping.Gateway.{service_gateway_to_c, service_gateway_to_proto}
use libupsf.Mapping.Endpoint.{metadata_to_proto}
use libupsf.Service.{Item, Stub, has_service_gateway}
use libupsf.Client.{gather, read_all}
use libupsf.Service.Members.{service_gateway-IsMember}
use libupsf.Structs.{UpsfServiceGateway, zero_metadata, zero_service_gateway}
use libupsf.Slots.{Slots, find}
use libupsf.Wrapper.Exports
use libupsf.Wrapper.Runs.{Call, perform_all, meant_all}
use libupsf.Wrapper.Keeping.{perform_all_refines}
use libupsf.Printing.Common.{codes}
use libupsf.Printing.Gateway.{print_service_gateway}
use libupsf.Printing.Items.{all_items-IsPlain}
use libupsf.Printing.Plain.{is_plain}
use libupsf.CExample.Steps.{dump_text, list_items}
use libupsf.CExample.Program.{Stack, main}
use libupsf.CExample.Outcome.{ended, main_fails}
use libupsf.CExample.Undefined.{dump_text_unterminated, list_items_overrun}
use libupsf.Tests.Samples
use libupsf.Tests.Samples.{gateway, texts_map, flags_map, stored}
use libupsf.Tests.Keeper.{keeper, keeper-IsStore}

abbrev network : Bytes → Stub (List Item)
network addr = keeper

-- Threads 7 and 8 are connected.
abbrev slots : Slots
slots = (7, codes "127.0.0.1:50051") ∷ (8, codes "127.0.0.1:50051") ∷ []

-- A buffer as memset and snprintf leave it.
abbrev asked : UpsfServiceGateway
asked = record zero_service_gateway { name = record zero_string { str = codes "sg-7" ++ 0 ∷ [] } }

abbrev asked_message : ServiceGateway
asked_message = record default_service_gateway { name = codes "sg-7" }

-- One thread creates, the other reads, deletes, and reads again.
abbrev calls : List (Call UpsfServiceGateway ServiceGateway)
calls =
    Call.create 7 asked asked_message
    ∷ Call.get 8 asked (codes "sg-7")
    ∷ Call.delete 8 asked (codes "sg-7")
    ∷ Call.get 7 asked (codes "sg-7")
    ∷ []

perform_all_refines_example :
    (w' : List Item) × (perform_all network Exports.service_gateway slots calls []
      ≡ some (
        w',
        (meant_all Exports.service_gateway keeper-IsStore.accept keeper-IsStore.merge calls
            (keeper-IsStore.at [])).1,
      ))
    × (keeper-IsStore.at w'
        ≡ (meant_all Exports.service_gateway keeper-IsStore.accept keeper-IsStore.merge calls
            (keeper-IsStore.at [])).0)
unfolding find until_nul load service_gateway_to_proto metadata_to_proto read_string
    zero_service_gateway zero_metadata zero_string
perform_all_refines_example =
    perform_all_refines network Exports.service_gateway service_gateway-IsMember slots
      keeper-IsStore calls []
      ((refl, refl), ((refl, refl, λ e. cc), ((refl, refl), ((refl, refl, λ e. cc), tt))))

abbrev time : Timestamp → Bytes
time t = codes "T"

abbrev empty_stack : Stack
empty_stack = record {
  buf = replicate 1024 0;
  service_gateways = [];
  service_gateway_user_planes = [];
  shards = [];
  session_contexts = [];
  network_connections = [];
  traffic_steering_functions = [];
}

main_fails_example :
    ended (main network time empty_stack [] 7 ((stored, false) ∷ []) []) ≢ some (pos 0)
main_fails_example = main_fails network time empty_stack [] 7 ((stored, false) ∷ []) []

time_plain : (t : Timestamp) → is_plain (time t) ≡ true
unfolding is_plain
time_plain t = refl

dump_text_unterminated_example :
    dump_text Exports.service_gateway
      (print_service_gateway time)
      (replicate 3 b'x')
      (service_gateway_to_c gateway)
    ≡ none
unfolding is_plain
dump_text_unterminated_example =
    dump_text_unterminated Exports.service_gateway (print_service_gateway time)
      (all_items-IsPlain time time_plain).0 (replicate 3 b'x') (service_gateway_to_c gateway) refl

-- A server with one item more than the array has room for.
abbrev crowd : List Item
crowd = replicate 65 (Item.service_gateway gateway)

list_items_overrun_example :
    list_items Samples.network slots 7 Exports.service_gateway
      (print_service_gateway time)
      (replicate 1024 0)
      (replicate 64 zero_service_gateway)
      (codes "service_gateway")
      crowd
    ≡ none
unfolding find gather read_all has_service_gateway
list_items_overrun_example =
    list_items_overrun Samples.network Exports.service_gateway (print_service_gateway time) slots 7
      (replicate 1024 0) (replicate 64 zero_service_gateway) (codes "service_gateway") crowd
      (replicate 65 gateway) refl refl (omega arith) (omega arith)
