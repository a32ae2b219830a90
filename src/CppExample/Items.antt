-- ===== src/CppExample/Items.antt =====
-- create_items and delete_items of UpsfCppExample, and main of upsf_cpp_example. The flags of the
-- command line are arguments; what google's libraries do at the start is left out.
use libupsf.Prelude.{Bool, List, [], ◌∷◌, ℤ}
use libupsf.Text.{Bytes}
use libupsf.Messages.{Timestamp}
use libupsf.MapField.{MapField}
use libupsf.Service.{Stub}
use libupsf.Slots.{address}
use libupsf.Printing.Common.{codes}
use libupsf.CppExample.Lines.{Line}
use libupsf.CppExample.Action.{Action, pure, print, ◌>>◌}
use libupsf.CppExample.Requests.{UpsfCppExample, new_example}
use libupsf.CppExample.Methods.Gateways.{
  sg_list, sg_create, sg_read, sg_delete, up_list, up_create, up_read, up_delete, tsf_list,
  tsf_create, tsf_read, tsf_delete,
}
use libupsf.CppExample.Methods.Sessions.{
  sgrp_list, sgrp_create, sgrp_read, sgrp_delete, sctx_list, sctx_create, sctx_read, sctx_delete,
  nc_list, nc_create, nc_read, nc_delete,
}

module _ {World : Type 0} where
  -- std::cout << std::endl << title << std::endl << std::endl
  abbrev pub section : (Timestamp → Bytes) → Bytes → Action World Unit
  section time title = do
    print time (Line.heading [])
    print time (Line.heading title)
    print time (Line.heading [])

module _ (time : Timestamp → Bytes) {World : Type 0} (stub : Stub World) (e : UpsfCppExample) where
  -- for (auto up : up_names)
  unfoldable pub create_user_planes : List (Bytes × Bytes) → Action World Unit
  create_user_planes [] = pure tt
  create_user_planes ((name, desc) ∷ ups) = do
    up_create time stub e name desc
    up_read time stub e name
    up_list time stub e
    create_user_planes ups

  unfoldable pub delete_user_planes : List (Bytes × Bytes) → Action World Unit
  delete_user_planes [] = pure tt
  delete_user_planes ((name, desc) ∷ ups) = do up_delete time stub e name; delete_user_planes ups

module _ (time : Timestamp → Bytes) {World : Type 0} (stub : Stub World) (e : UpsfCppExample)
    ⦃texts : MapField Bytes⦄ ⦃flags : MapField Bool⦄ where
  unfoldable pub create_items : Action World Unit
  create_items = do
    section time (codes "<<< SERVICE GATEWAYS >>>")
    sg_list time stub e
    sg_create time stub e e.sg_name
    sg_read time stub e e.sg_name
    sg_list time stub e
    section time (codes "<<< SERVICE GATEWAY USER PLANES >>>")
    up_list time stub e
    create_user_planes time stub e e.up_names
    section time (codes "<<< TRAFFIC STEERING FUNCTIONS >>>")
    tsf_list time stub e
    tsf_create time stub e e.tsf_name
    tsf_read time stub e e.tsf_name
    tsf_list time stub e
    section time (codes "<<< SHARDS (SUBSCRIBER GROUPS) >>>")
    sgrp_list time stub e
    sgrp_create time stub e e.sgrp_name
    sgrp_read time stub e e.sgrp_name
    sgrp_list time stub e
    section time (codes "<<< SESSION CONTEXTS >>>")
    sctx_list time stub e
    sctx_create time stub e e.sctx_name
    sctx_read time stub e e.sctx_name
    sctx_list time stub e
    section time (codes "<<< NETWORK CONNECTIONS >>>")
    nc_list time stub e
    nc_create time stub e e.nc_name
    nc_read time stub e e.nc_name
    nc_list time stub e

  unfoldable pub delete_items : Action World Unit
  delete_items = do
    section time (codes "<<< NETWORK CONNECTIONS >>>")
    nc_delete time stub e e.nc_name
    nc_list time stub e
    section time (codes "<<< SESSION CONTEXTS >>>")
    sctx_delete time stub e e.sctx_name
    sctx_list time stub e
    section time (codes "<<< SHARDS (SUBSCRIBER GROUPS) >>>")
    sgrp_delete time stub e e.sgrp_name
    sgrp_list time stub e
    section time (codes "<<< TRAFFIC STEERING FUNCTIONS >>>")
    tsf_delete time stub e e.tsf_name
    tsf_list time stub e
    section time (codes "<<< SERVICE GATEWAY USER PLANES >>>")
    delete_user_planes time stub e e.up_names
    up_list time stub e
    section time (codes "<<< SERVICE GATEWAYS >>>")
    sg_delete time stub e e.sg_name
    sg_list time stub e

-- The names and the address of the server, as the flags give them.
pub record Flags : Type 0 where
  pub upsfhost : Bytes
  pub upsfport : ℤ
  pub sgname : Bytes
  pub tsfname : Bytes
  pub sgrpname : Bytes
  pub sctxname : Bytes
  pub ncname : Bytes

abbrev pub flagged : Flags → UpsfCppExample
flagged f =
    new_example (address f.upsfhost f.upsfport) f.sgname f.tsfname f.sgrpname f.sctxname f.ncname

unfoldable pub main :
    (Timestamp → Bytes)
    → {World : Type 0} → (Bytes → Stub World)
    → ⦃texts : MapField Bytes⦄ → ⦃flags : MapField Bool⦄ → Flags
    → Action World Unit
unfolding create_items delete_items new_example address
main time network f = do
  create_items time (network (flagged f).srvaddr) (flagged f)
  delete_items time (network (flagged f).srvaddr) (flagged f)
