-- ===== src/Tests/Program.antt =====
-- Runs of upsf_cpp_example.
use libupsf.Prelude.{All, ◌≡◌, refl, none, some, if◌then◌else◌, List, [], ◌∷◌, pos, arith}
use libupsf.Text.{Bytes}
use libupsf.MapField.{same_bytes}
use libupsf.Messages.{Timestamp, default_service_gateway}
use libupsf.Service.{Item}
use libupsf.Service.Store.{item_name}
use libupsf.Printing.Common.{codes}
use libupsf.CppExample.Requests.{UpsfCppExample, new_example}
use libupsf.CppExample.Items.{Flags, flagged, main, create_items, delete_items}
use libupsf.CppExample.Methods.Sessions.{nc_create}
use libupsf.CppExample.Spec.{IsNamed, tasks, ensure_all, names, remove_all}
use libupsf.Names.{upsf_derived_state_to_name, name_of, entry}
use libupsf.Printing.Common.{print_metadata}
use libupsf.Printing.Gateway.{print_service_gateway}
use libupsf.Printing.Session.{print_session_context}
use libupsf.CppExample.Lines.{item_text}
use libupsf.CppExample.Effect.Runs.{Shows, AllShow, AllShow-put, IsShowing, Ends}
use libupsf.CppExample.Effect.Items.{create_items_refines, delete_items_refines}
use libupsf.CppExample.Effect.Cleanup.{among, main_lem, nc_create_blocked}
use libupsf.Tests.Samples.{texts_map, flags_map, connection, session}
use libupsf.Tests.Keeper.{at, keeper, keeper-IsStore}

abbrev default_flags : Flags
default_flags = record {
  upsfhost = codes "localhost";
  upsfport = pos 50051;
  sgname = codes "my-sg";
  tsfname = codes "my-tsf";
  sgrpname = codes "my-sgrp";
  sctxname = codes "my-sctx";
  ncname = codes "my-nc";
}

abbrev program : UpsfCppExample
program = flagged default_flags

abbrev gateway_item : Item
gateway_item = Item.service_gateway (record default_service_gateway { name = codes "my-sg" })

abbrev session_item : Item
session_item = Item.session_context session

abbrev some_items : List Item
some_items = gateway_item ∷ session_item ∷ []

program-IsNamed : IsNamed program
unfolding new_example
program-IsNamed = record {
  sg = λ h. cc;
  ups = (λ h. cc, (λ h. cc, tt));
  tsf = λ h. cc;
  sgrp = λ h. cc;
  sctx = λ h. cc;
  nc = λ h. cc;
}

abbrev time : Timestamp → Bytes
time t = codes "T"

keeper-IsShowing : IsShowing time keeper-IsStore
unfolding keeper-IsStore
keeper-IsShowing = record { accepts = λ i h. h; merges = λ s old new h h'. h' }

stored_show : (w : List Item) → All (Shows time) w → AllShow time (at w)
stored_show [] h = λ n i e. absurd (ground arith)
stored_show (i ∷ w) (h, hs) = AllShow-put time (item_name i) i (at w) h (stored_show w hs)

some_items_show : AllShow time (keeper-IsStore.at some_items)
unfolding keeper-IsStore item_text print_service_gateway print_session_context print_metadata
    upsf_derived_state_to_name name_of entry
some_items_show = stored_show some_items ((_, refl), ((_, refl), tt))

main_lem_example :
    (w' : List Item) × (texts : List Bytes) × (main time (λ addr. keeper) default_flags some_items
      ≡ some (w', texts, tt))
    × ((n : Bytes)
        → keeper-IsStore.at w' n
          ≡ (if among n (names program) then none else keeper-IsStore.at some_items n))
main_lem_example =
    main_lem time (λ addr. keeper) default_flags keeper-IsStore keeper-IsShowing program-IsNamed
      some_items some_items_show

nc_create_blocked_example :
    (w' : List Item) × (texts : List Bytes) × (nc_create time keeper program
        (codes "nc-1")
        (Item.network_connection connection ∷ [])
      ≡ some (w', texts, tt))
    × (keeper-IsStore.at w' ≡ keeper-IsStore.at (Item.network_connection connection ∷ []))
unfolding keeper-IsStore same_bytes item_name
nc_create_blocked_example =
    nc_create_blocked time program keeper-IsStore (codes "nc-1") (λ h. cc) connection
      (Item.network_connection connection ∷ []) refl

create_items_refines_example :
    Ends time keeper-IsStore (create_items time keeper program some_items) tt (
      ensure_all keeper-IsStore.accept keeper-IsStore.merge
        (tasks program)
        (keeper-IsStore.at some_items))
create_items_refines_example =
    create_items_refines time keeper-IsStore keeper-IsShowing program program-IsNamed some_items
      some_items_show

delete_items_refines_example :
    Ends time keeper-IsStore
      (delete_items time keeper program some_items)
      tt
      (remove_all (names program) (keeper-IsStore.at some_items))
delete_items_refines_example =
    delete_items_refines time keeper-IsStore keeper-IsShowing program some_items some_items_show
