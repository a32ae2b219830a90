-- ===== src/CppExample/Methods/Sessions.antt =====
-- The methods for subscriber groups (shards), session contexts and network connections.
use libupsf.Prelude.{Bool}
use libupsf.Text.{Bytes}
use libupsf.MapField.{MapField}
use libupsf.Messages.{Timestamp, default_shard, default_session_context, default_network_connection}
use libupsf.Service.{
  Stub, ListMergeStrategy, shard_kind, session_context_kind, network_connection_kind,
}
use libupsf.Printing.Common.{codes}
use libupsf.CppExample.Lines.{Line}
use libupsf.CppExample.Action.{Action, pure, print}
use libupsf.CppExample.Steps.{
  list_items, read_item, item_exists, create_new, update_item, create_item, delete_item,
}
use libupsf.CppExample.Requests.{UpsfCppExample, sgrp_request, sctx_request, nc_request}

module _ (time : Timestamp → Bytes) {World : Type 0} (stub : Stub World) (e : UpsfCppExample)
    ⦃texts : MapField Bytes⦄ ⦃flags : MapField Bool⦄ where
  unfoldable pub sgrp_list : Action World Unit
  sgrp_list =
      list_items time stub shard_kind (codes "SubscriberGroup") (codes "failure: list shards")

  unfoldable pub sgrp_read : Bytes → Action World Unit
  sgrp_read name =
      read_item time stub shard_kind (codes "SubscriberGroup") (codes "failure: read shard") name

  unfoldable pub sgrp_exists : Bytes → Action World Bool
  sgrp_exists name = item_exists stub shard_kind name

  -- The headings show the name of the traffic steering function.
  unfoldable pub sgrp_create : Bytes → Action World Unit
  sgrp_create name =
      create_item (sgrp_exists name)
        (create_new time stub shard_kind (codes "SubscriberGroup") (codes "failure: create shard")
          e.tsf_name (record default_shard { name = name }))
        (update_item time stub shard_kind (codes "SubscriberGroup") (codes "failure: update shard")
          e.tsf_name ListMergeStrategy.union (sgrp_request e name) (pure tt))

  unfoldable pub sgrp_delete : Bytes → Action World Unit
  sgrp_delete name =
      delete_item time stub (codes "SubscriberGroup") (codes "failure: delete shard") name

  unfoldable pub sctx_list : Action World Unit
  sctx_list =
      list_items time stub session_context_kind (codes "SessionContext")
        (codes "failure: read service gateways")

  unfoldable pub sctx_read : Bytes → Action World Unit
  sctx_read name =
      read_item time stub session_context_kind (codes "SessionContext")
        (codes "failure: read session_context") name

  unfoldable pub sctx_exists : Bytes → Action World Bool
  sctx_exists name = item_exists stub session_context_kind name

  unfoldable pub sctx_create : Bytes → Action World Unit
  sctx_create name =
      create_item (sctx_exists name)
        (create_new time stub session_context_kind (codes "SessionContext")
          (codes "failure: create session_context") name
          (record default_session_context { name = name }))
        (update_item time stub session_context_kind (codes "SessionContext")
          (codes "failure: update session_context") name ListMergeStrategy.union
          (sctx_request e name) (pure tt))

  unfoldable pub sctx_delete : Bytes → Action World Unit
  sctx_delete name =
      delete_item time stub (codes "SessionContext") (codes "failure: delete session_context") name

  unfoldable pub nc_list : Action World Unit
  nc_list =
      list_items time stub network_connection_kind (codes "NetworkConnection")
        (codes "failure: list network connections")

  unfoldable pub nc_read : Bytes → Action World Unit
  nc_read name =
      read_item time stub network_connection_kind (codes "NetworkConnection")
        (codes "failure: read network connection") name

  -- The read is one of a session context, as in sctx_exists.
  unfoldable pub nc_exists : Bytes → Action World Bool
  nc_exists name = item_exists stub session_context_kind name

  unfoldable pub nc_create : Bytes → Action World Unit
  nc_create name =
      create_item (nc_exists name)
        (create_new time stub network_connection_kind (codes "NetworkConnection")
          (codes "failure: create network connection") name
          (record default_network_connection { name = name }))
        (update_item time stub network_connection_kind (codes "NetworkConnection")
          (codes "failure: update traffic steering function") name ListMergeStrategy.union
          (nc_request e name)
          (print time (Line.plain (network_connection_kind.wrap (nc_request e name)))))

  unfoldable pub nc_delete : Bytes → Action World Unit
  nc_delete name =
      delete_item time stub (codes "NetworkConnection") (codes "failure: delete network connection")
        name
