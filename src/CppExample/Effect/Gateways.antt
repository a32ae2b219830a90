-- ===== src/CppExample/Effect/Gateways.antt =====
-- The effects of the methods for service gateways, user planes and traffic steering functions.
use libupsf.Prelude.{◌≢◌, refl, Bool, [], none}
use libupsf.Text.{Bytes}
use libupsf.MapField.{MapField}
use libupsf.Messages.{Timestamp}
use libupsf.Service.{Stub}
use libupsf.Service.Store.{IsStore, put}
use libupsf.Service.Members.{
  service_gateway-IsMember, user_plane-IsMember, steering_function-IsMember,
}
use libupsf.CppExample.Requests.{UpsfCppExample, sg_request, up_request, tsf_request}
use libupsf.CppExample.Methods.Gateways.{
  sg_list, sg_read, sg_exists, sg_create, sg_delete, up_list, up_read, up_exists, up_create,
  up_delete, tsf_list, tsf_read, tsf_exists, tsf_create, tsf_delete,
}
use libupsf.CppExample.Spec.{ensure, sg_task, up_task, tsf_task}
use libupsf.CppExample.Effect.Runs.{Does, IsShowing}
use libupsf.CppExample.Effect.Steps.{list-Does, read-Does, delete-Does}
use libupsf.CppExample.Effect.Refines.{create_item-Does}
use libupsf.CppExample.Effect.Printable.{
  sg_named-Shows, sg_blank-Shows, sg_request-Shows, up_named-Shows, up_blank-Shows,
  up_request-Shows, tsf_named-Shows, tsf_blank-Shows, tsf_request-Shows,
}

module _ (time : Timestamp → Bytes) {World : Type 0} {stub : Stub World} (store : IsStore stub)
    (showing : IsShowing time store) (e : UpsfCppExample) ⦃texts : MapField Bytes⦄
    ⦃flags : MapField Bool⦄ where
  pub sg_list-Does : Does time store (sg_list time stub e) (λ v. v)
  unfolding sg_list
  sg_list-Does = list-Does time store service_gateway-IsMember (sg_blank-Shows time) _ _

  pub sg_read-Does :
      (name : Bytes) → name ≢ [] → Does time store (sg_read time stub e name) (λ v. v)
  unfolding sg_read
  sg_read-Does name given =
      read-Does time store service_gateway-IsMember (sg_blank-Shows time) _ _ name given

  pub sg_create-Does :
      (name : Bytes)
      → name ≢ []
      → Does time store
          (sg_create time stub e name)
          (ensure store.accept store.merge (sg_task e name))
  unfolding sg_create sg_exists sg_request
  sg_create-Does name given =
      create_item-Does time store showing service_gateway-IsMember service_gateway-IsMember
        (sg_blank-Shows time) _ _ _ _ _ _ (λ v. ([], refl)) _ (sg_request e name) refl
        (sg_named-Shows time name) (sg_request-Shows time e name) given

  pub sg_delete-Does : (name : Bytes) → Does time store (sg_delete time stub e name) (put name none)
  unfolding sg_delete
  sg_delete-Does name = delete-Does time store _ _ name

  pub up_list-Does : Does time store (up_list time stub e) (λ v. v)
  unfolding up_list
  up_list-Does = list-Does time store user_plane-IsMember (up_blank-Shows time) _ _

  pub up_read-Does :
      (name : Bytes) → name ≢ [] → Does time store (up_read time stub e name) (λ v. v)
  unfolding up_read
  up_read-Does name given =
      read-Does time store user_plane-IsMember (up_blank-Shows time) _ _ name given

  pub up_create-Does :
      (name desc : Bytes)
      → name ≢ []
      → Does time store
          (up_create time stub e name desc)
          (ensure store.accept store.merge (up_task e (name, desc)))
  unfolding up_create up_exists up_request
  up_create-Does name desc given =
      create_item-Does time store showing user_plane-IsMember user_plane-IsMember
        (up_blank-Shows time) _ _ _ _ _ _ (λ v. ([], refl)) _ (up_request e name desc) refl
        (up_named-Shows time name) (up_request-Shows time e name desc) given

  pub up_delete-Does : (name : Bytes) → Does time store (up_delete time stub e name) (put name none)
  unfolding up_delete
  up_delete-Does name = delete-Does time store _ _ name

  pub tsf_list-Does : Does time store (tsf_list time stub e) (λ v. v)
  unfolding tsf_list
  tsf_list-Does = list-Does time store steering_function-IsMember (tsf_blank-Shows time) _ _

  pub tsf_read-Does :
      (name : Bytes) → name ≢ [] → Does time store (tsf_read time stub e name) (λ v. v)
  unfolding tsf_read
  tsf_read-Does name given =
      read-Does time store steering_function-IsMember (tsf_blank-Shows time) _ _ name given

  pub tsf_create-Does :
      (name : Bytes)
      → name ≢ []
      → Does time store
          (tsf_create time stub e name)
          (ensure store.accept store.merge (tsf_task e name))
  unfolding tsf_create tsf_exists tsf_request
  tsf_create-Does name given =
      create_item-Does time store showing steering_function-IsMember steering_function-IsMember
        (tsf_blank-Shows time) _ _ _ _ _ _ (λ v. ([], refl)) _ (tsf_request e name) refl
        (tsf_named-Shows time name) (tsf_request-Shows time e name) given

  pub tsf_delete-Does :
      (name : Bytes) → Does time store (tsf_delete time stub e name) (put name none)
  unfolding tsf_delete
  tsf_delete-Does name = delete-Does time store _ _ name
