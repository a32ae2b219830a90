-- ===== src/CppExample/Effect/Printable.antt =====
-- What the example sends can be printed, and so can messages that are not filled in.
use libupsf.Prelude.{refl, Bool}
use libupsf.Text.{Bytes}
use libupsf.MapField.{MapField}
use libupsf.Names.{
  upsf_derived_state_to_name, upsf_maintenance_req_to_name, upsf_mbb_state_to_name, name_of, entry,
}
use libupsf.Messages.{
  Timestamp, default_service_gateway, default_user_plane, default_steering_function, default_shard,
  default_session_context, default_network_connection,
}
use libupsf.Service.{Item}
use libupsf.Printing.Common.{print_metadata, print_maintenance}
use libupsf.Printing.Connection.{print_network_connection}
use libupsf.Printing.Gateway.{print_service_gateway, print_user_plane, print_steering_function}
use libupsf.Printing.Shard.{print_shard, print_mbb}
use libupsf.Printing.Session.{print_session_context}
use libupsf.CppExample.Lines.{item_text}
use libupsf.CppExample.Requests.{
  UpsfCppExample, sg_request, up_request, tsf_request, sgrp_request, sctx_request, nc_request,
}
use libupsf.CppExample.Effect.Runs.{Shows}

module _ (time : Timestamp → Bytes) where
  pub sg_named-Shows :
      (name : Bytes)
      → Shows time (Item.service_gateway (record default_service_gateway { name = name }))
  unfolding item_text print_service_gateway print_metadata upsf_derived_state_to_name name_of entry
  sg_named-Shows name = (_, refl)

  pub sg_blank-Shows : Shows time (Item.service_gateway default_service_gateway)
  unfolding item_text print_service_gateway print_metadata upsf_derived_state_to_name name_of entry
  sg_blank-Shows = (_, refl)

  pub up_named-Shows :
      (name : Bytes)
      → Shows time (Item.service_gateway_user_plane (record default_user_plane { name = name }))
  unfolding item_text print_user_plane print_metadata upsf_derived_state_to_name name_of entry
      print_maintenance upsf_maintenance_req_to_name
  up_named-Shows name = (_, refl)

  pub up_blank-Shows : Shows time (Item.service_gateway_user_plane default_user_plane)
  unfolding item_text print_user_plane print_metadata upsf_derived_state_to_name name_of entry
      print_maintenance upsf_maintenance_req_to_name
  up_blank-Shows = (_, refl)

  pub tsf_named-Shows :
      (name : Bytes)
      → Shows time
          (Item.traffic_steering_function (record default_steering_function { name = name }))
  unfolding item_text print_steering_function print_metadata upsf_derived_state_to_name name_of
      entry
  tsf_named-Shows name = (_, refl)

  pub tsf_blank-Shows : Shows time (Item.traffic_steering_function default_steering_function)
  unfolding item_text print_steering_function print_metadata upsf_derived_state_to_name name_of
      entry
  tsf_blank-Shows = (_, refl)

  pub sgrp_named-Shows :
      (name : Bytes) → Shows time (Item.shard (record default_shard { name = name }))
  unfolding item_text print_shard print_metadata upsf_derived_state_to_name name_of entry print_mbb
      upsf_mbb_state_to_name
  sgrp_named-Shows name = (_, refl)

  pub sgrp_blank-Shows : Shows time (Item.shard default_shard)
  unfolding item_text print_shard print_metadata upsf_derived_state_to_name name_of entry print_mbb
      upsf_mbb_state_to_name
  sgrp_blank-Shows = (_, refl)

  pub sctx_named-Shows :
      (name : Bytes)
      → Shows time (Item.session_context (record default_session_context { name = name }))
  unfolding item_text print_session_context print_metadata upsf_derived_state_to_name name_of entry
  sctx_named-Shows name = (_, refl)

  pub sctx_blank-Shows : Shows time (Item.session_context default_session_context)
  unfolding item_text print_session_context print_metadata upsf_derived_state_to_name name_of entry
  sctx_blank-Shows = (_, refl)

  pub nc_named-Shows :
      (name : Bytes)
      → Shows time (Item.network_connection (record default_network_connection { name = name }))
  unfolding item_text print_network_connection print_metadata upsf_derived_state_to_name name_of
      entry
  nc_named-Shows name = (_, refl)

  pub nc_blank-Shows : Shows time (Item.network_connection default_network_connection)
  unfolding item_text print_network_connection print_metadata upsf_derived_state_to_name name_of
      entry
  nc_blank-Shows = (_, refl)

module _ (time : Timestamp → Bytes) (e : UpsfCppExample) ⦃texts : MapField Bytes⦄
    ⦃flags : MapField Bool⦄ where
  pub sg_request-Shows : (name : Bytes) → Shows time (Item.service_gateway (sg_request e name))
  unfolding item_text print_service_gateway print_metadata upsf_derived_state_to_name name_of entry
      sg_request
  sg_request-Shows name = (_, refl)

  pub up_request-Shows :
      (name desc : Bytes) → Shows time (Item.service_gateway_user_plane (up_request e name desc))
  unfolding item_text print_user_plane print_metadata upsf_derived_state_to_name name_of entry
      up_request print_maintenance upsf_maintenance_req_to_name
  up_request-Shows name desc = (_, refl)

  pub tsf_request-Shows :
      (name : Bytes) → Shows time (Item.traffic_steering_function (tsf_request e name))
  unfolding item_text print_steering_function print_metadata upsf_derived_state_to_name name_of
      entry tsf_request
  tsf_request-Shows name = (_, refl)

  pub sgrp_request-Shows : (name : Bytes) → Shows time (Item.shard (sgrp_request e name))
  unfolding item_text print_shard print_metadata upsf_derived_state_to_name name_of entry
      sgrp_request print_mbb upsf_mbb_state_to_name
  sgrp_request-Shows name = (_, refl)

  pub sctx_request-Shows : (name : Bytes) → Shows time (Item.session_context (sctx_request e name))
  unfolding item_text print_session_context print_metadata upsf_derived_state_to_name name_of entry
      sctx_request
  sctx_request-Shows name = (_, refl)

  pub nc_request-Shows : (name : Bytes) → Shows time (Item.network_connection (nc_request e name))
  unfolding item_text print_network_connection print_metadata upsf_derived_state_to_name name_of
      entry nc_request
  nc_request-Shows name = (_, refl)
