-- ===== src/CppExample/Effect/Sessions.antt =====
-- The effects of the methods for subscriber groups, session contexts and network connections.
use libupsf.Prelude.{◌≡◌, ◌≢◌, refl, Bool, List, [], ◌∷◌, none, some}
use libupsf.Text.{Bytes}
use libupsf.MapField.{MapField}
use libupsf.Messages.{Timestamp, NetworkConnection}
use libupsf.Service.{Item, Stub}
use libupsf.Service.Store.{IsStore, put}
use libupsf.CppExample.Lines.{Line, line_text}
use libupsf.CppExample.Action.{print}
use libupsf.Service.Members.{shard-IsMember, session_context-IsMember, network_connection-IsMember}
use libupsf.CppExample.Requests.{UpsfCppExample, sgrp_request, sctx_request, nc_request}
use libupsf.CppExample.Methods.Sessions.{
  sgrp_list, sgrp_read, sgrp_exists, sgrp_create, sgrp_delete, sctx_list, sctx_read, sctx_exists,
  sctx_create, sctx_delete, nc_list, nc_read, nc_exists, nc_create, nc_delete,
}
use libupsf.CppExample.Spec.{ensure, sgrp_task, sctx_task, nc_task}
use libupsf.CppExample.Effect.Runs.{Does, IsShowing, Shows}
use libupsf.CppExample.Effect.Steps.{list-Does, read-Does, delete-Does}
use libupsf.CppExample.Effect.Refines.{create_item-Does}
use libupsf.CppExample.Effect.Printable.{
  sgrp_named-Shows, sgrp_blank-Shows, sgrp_request-Shows, sctx_named-Shows, sctx_blank-Shows,
  sctx_request-Shows, nc_named-Shows, nc_blank-Shows, nc_request-Shows,
}

quiet_print :
    (time : Timestamp → Bytes) {World : Type 0} (m : NetworkConnection)
    → Shows time (Item.network_connection m)
    → (w : World)
    → (texts : List Bytes) × (print time (Line.plain (Item.network_connection m)) w
        ≡ some (w, texts, tt))
unfolding line_text
quiet_print time m (text, e) w = (text ∷ [], rw e refl)

module _ (time : Timestamp → Bytes) {World : Type 0} {stub : Stub World} (store : IsStore stub)
    (showing : IsShowing time store) (e : UpsfCppExample) ⦃texts : MapField Bytes⦄
    ⦃flags : MapField Bool⦄ where
  pub sgrp_list-Does : Does time store (sgrp_list time stub e) (λ v. v)
  unfolding sgrp_list
  sgrp_list-Does = list-Does time store shard-IsMember (sgrp_blank-Shows time) _ _

  pub sgrp_read-Does :
      (name : Bytes) → name ≢ [] → Does time store (sgrp_read time stub e name) (λ v. v)
  unfolding sgrp_read
  sgrp_read-Does name given =
      read-Does time store shard-IsMember (sgrp_blank-Shows time) _ _ name given

  pub sgrp_create-Does :
      (name : Bytes)
      → name ≢ []
      → Does time store
          (sgrp_create time stub e name)
          (ensure store.accept store.merge (sgrp_task e name))
  unfolding sgrp_create sgrp_exists sgrp_request
  sgrp_create-Does name given =
      create_item-Does time store showing shard-IsMember shard-IsMember (sgrp_blank-Shows time) _ _
        _ _ _ _ (λ v. ([], refl)) _ (sgrp_request e name) refl (sgrp_named-Shows time name)
        (sgrp_request-Shows time e name) given

  pub sgrp_delete-Does :
      (name : Bytes) → Does time store (sgrp_delete time stub e name) (put name none)
  unfolding sgrp_delete
  sgrp_delete-Does name = delete-Does time store _ _ name

  pub sctx_list-Does : Does time store (sctx_list time stub e) (λ v. v)
  unfolding sctx_list
  sctx_list-Does = list-Does time store session_context-IsMember (sctx_blank-Shows time) _ _

  pub sctx_read-Does :
      (name : Bytes) → name ≢ [] → Does time store (sctx_read time stub e name) (λ v. v)
  unfolding sctx_read
  sctx_read-Does name given =
      read-Does time store session_context-IsMember (sctx_blank-Shows time) _ _ name given

  pub sctx_create-Does :
      (name : Bytes)
      → name ≢ []
      → Does time store
          (sctx_create time stub e name)
          (ensure store.accept store.merge (sctx_task e name))
  unfolding sctx_create sctx_exists sctx_request
  sctx_create-Does name given =
      create_item-Does time store showing session_context-IsMember session_context-IsMember
        (sctx_blank-Shows time) _ _ _ _ _ _ (λ v. ([], refl)) _ (sctx_request e name) refl
        (sctx_named-Shows time name) (sctx_request-Shows time e name) given

  pub sctx_delete-Does :
      (name : Bytes) → Does time store (sctx_delete time stub e name) (put name none)
  unfolding sctx_delete
  sctx_delete-Does name = delete-Does time store _ _ name

  pub nc_list-Does : Does time store (nc_list time stub e) (λ v. v)
  unfolding nc_list
  nc_list-Does = list-Does time store network_connection-IsMember (nc_blank-Shows time) _ _

  pub nc_read-Does :
      (name : Bytes) → name ≢ [] → Does time store (nc_read time stub e name) (λ v. v)
  unfolding nc_read
  nc_read-Does name given =
      read-Does time store network_connection-IsMember (nc_blank-Shows time) _ _ name given

  pub nc_create-Does :
      (name : Bytes)
      → name ≢ []
      → Does time store
          (nc_create time stub e name)
          (ensure store.accept store.merge (nc_task e name))
  unfolding nc_create nc_exists nc_request
  nc_create-Does name given =
      create_item-Does time store showing network_connection-IsMember session_context-IsMember
        (nc_blank-Shows time) _ _ _ _ _ _
        (quiet_print time (nc_request e name) (nc_request-Shows time e name)) _ (nc_request e name)
        refl (nc_named-Shows time name) (nc_request-Shows time e name) given

  pub nc_delete-Does : (name : Bytes) → Does time store (nc_delete time stub e name) (put name none)
  unfolding nc_delete
  nc_delete-Does name = delete-Does time store _ _ name
