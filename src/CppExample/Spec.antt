-- ===== src/CppExample/Spec.antt =====
-- What UpsfCppExample is meant to do, told of the items under their names alone.
use libupsf.Prelude.{◌≢◌, All, Bool, List, [], ◌∷◌, ◌++◌, Option, none, some, map, if◌then◌else◌}
use libupsf.Text.{Bytes}
use libupsf.MapField.{MapField}
use libupsf.Messages.{
  default_service_gateway, default_user_plane, default_steering_function, default_shard,
  default_session_context, default_network_connection,
}
use libupsf.Service.{Item, ItemType, ListMergeStrategy}
use libupsf.Service.Store.{has_type, put}
use libupsf.CppExample.Requests.{
  UpsfCppExample, sg_request, up_request, tsf_request, sgrp_request, sctx_request, nc_request,
}

-- One create method: the name, the item that it creates, the one that it updates with, how lists are
-- merged, and the type of the item that counts as there already.
pub record Task : Type 0 where
  pub name : Bytes
  pub created : Item
  pub updated : Item
  pub strategy : ListMergeStrategy
  pub asked : ItemType

abbrev pub View : Type 0
View = Bytes → Option Item

-- `accept` is what the server makes of an item that is created, and `merge` of one by an update.
module _ (accept : Item → Item) (merge : ListMergeStrategy → Item → Item → Item) where
  -- An item of the type that counts is updated, and so is one that had to be created; a name that is
  -- taken by any other item stays as it is.
  abbrev pub ensured : Task → Option Item → Option Item
  ensured t none = some (merge t.strategy (accept t.created) t.updated)
  ensured t (some i) = if has_type t.asked i then some (merge t.strategy i t.updated) else some i

  abbrev pub ensure : Task → View → View
  ensure t v = put t.name (ensured t (v t.name)) v

  abbrev pub ensure_all : List Task → View → View
  ensure_all [] v = v
  ensure_all (t ∷ ts) v = ensure_all ts (ensure t v)

abbrev pub remove_all : List Bytes → View → View
remove_all [] v = v
remove_all (name ∷ names) v = remove_all names (put name none v)

module _ (e : UpsfCppExample) where
  abbrev pub sg_task : Bytes → Task
  sg_task name = record {
    name = name;
    created = Item.service_gateway (record default_service_gateway { name = name });
    updated = Item.service_gateway (sg_request e name);
    strategy = ListMergeStrategy.replace;
    asked = ItemType.service_gateway;
  }

  abbrev pub up_task : Bytes × Bytes → Task
  up_task (name, desc) = record {
    name = name;
    created = Item.service_gateway_user_plane (record default_user_plane { name = name });
    updated = Item.service_gateway_user_plane (up_request e name desc);
    strategy = ListMergeStrategy.union;
    asked = ItemType.service_gateway_user_plane;
  }

  abbrev pub tsf_task : Bytes → Task
  tsf_task name = record {
    name = name;
    created = Item.traffic_steering_function (record default_steering_function { name = name });
    updated = Item.traffic_steering_function (tsf_request e name);
    strategy = ListMergeStrategy.union;
    asked = ItemType.traffic_steering_function;
  }

  abbrev pub sgrp_task : ⦃texts : MapField Bytes⦄ → Bytes → Task
  sgrp_task name = record {
    name = name;
    created = Item.shard (record default_shard { name = name });
    updated = Item.shard (sgrp_request e name);
    strategy = ListMergeStrategy.union;
    asked = ItemType.shard;
  }

  abbrev pub sctx_task : Bytes → Task
  sctx_task name = record {
    name = name;
    created = Item.session_context (record default_session_context { name = name });
    updated = Item.session_context (sctx_request e name);
    strategy = ListMergeStrategy.union;
    asked = ItemType.session_context;
  }

  -- What counts as a network connection that is there is a session context.
  abbrev pub nc_task : ⦃flags : MapField Bool⦄ → Bytes → Task
  nc_task name = record {
    name = name;
    created = Item.network_connection (record default_network_connection { name = name });
    updated = Item.network_connection (nc_request e name);
    strategy = ListMergeStrategy.union;
    asked = ItemType.session_context;
  }

  abbrev pub last_tasks : ⦃texts : MapField Bytes⦄ → ⦃flags : MapField Bool⦄ → List Task
  last_tasks =
      tsf_task e.tsf_name ∷ sgrp_task e.sgrp_name ∷ sctx_task e.sctx_name ∷ nc_task e.nc_name ∷ []

  abbrev pub tasks : ⦃texts : MapField Bytes⦄ → ⦃flags : MapField Bool⦄ → List Task
  tasks = sg_task e.sg_name ∷ (map up_task e.up_names ++ last_tasks)

  -- The names in the order of their removal.
  abbrev pub names : List Bytes
  names =
      e.nc_name
      ∷ e.sctx_name
      ∷ e.sgrp_name
      ∷ e.tsf_name
      ∷ (map (λ up. up.0) e.up_names ++ e.sg_name ∷ [])

-- No name is empty.
pub record IsNamed (e : UpsfCppExample) : Type 0 where
  pub sg : e.sg_name ≢ []
  pub ups : All (λ (up : Bytes × Bytes). up.0 ≢ []) e.up_names
  pub tsf : e.tsf_name ≢ []
  pub sgrp : e.sgrp_name ≢ []
  pub sctx : e.sctx_name ≢ []
  pub nc : e.nc_name ≢ []
