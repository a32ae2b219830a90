-- ===== src/CppExample/Effect/Items.antt =====
-- The whole program refines the list of its tasks.
use libupsf.Prelude.{◌≡◌, ◌≢◌, refl, sym, ◌∙◌, Bool, List, [], ◌∷◌, ◌++◌, All, none, map}
use libupsf.Text.{Bytes}
use libupsf.MapField.{MapField}
use libupsf.Messages.{Timestamp}
use libupsf.Service.{Item, ListMergeStrategy, Stub}
use libupsf.Service.Store.{IsStore, put}
use libupsf.CppExample.Lines.{Line, line_text}
use libupsf.CppExample.Action.{Action}
use libupsf.CppExample.Requests.{UpsfCppExample}
use libupsf.CppExample.Items.{
  section, create_user_planes, delete_user_planes, create_items, delete_items,
}
use libupsf.CppExample.Spec.{
  Task, View, ensure, ensure_all, remove_all, up_task, last_tasks, sg_task, tasks, names, IsNamed,
}
use libupsf.CppExample.Effect.Runs.{AllShow, IsShowing, Ends, Does, seq, print-Does}
use libupsf.CppExample.Effect.Gateways.{
  sg_list-Does, sg_read-Does, sg_create-Does, sg_delete-Does, up_list-Does, up_read-Does,
  up_create-Does, up_delete-Does, tsf_list-Does, tsf_read-Does, tsf_create-Does, tsf_delete-Does,
}
use libupsf.CppExample.Effect.Sessions.{
  sgrp_list-Does, sgrp_read-Does, sgrp_create-Does, sgrp_delete-Does, sctx_list-Does,
  sctx_read-Does, sctx_create-Does, sctx_delete-Does, nc_list-Does, nc_read-Does, nc_create-Does,
  nc_delete-Does,
}

ensure_all-append :
    (accept : Item → Item) (merge : ListMergeStrategy → Item → Item → Item) (ts us : List Task)
    (v : View)
    → ensure_all accept merge (ts ++ us) v
      ≡ ensure_all accept merge us (ensure_all accept merge ts v)
ensure_all-append accept merge [] us v = refl
ensure_all-append accept merge (t ∷ ts) us v =
    ensure_all-append accept merge ts us (ensure accept merge t v)

remove_all-append :
    (names more : List Bytes) (v : View)
    → remove_all (names ++ more) v ≡ remove_all more (remove_all names v)
remove_all-append [] more v = refl
remove_all-append (name ∷ names) more v = remove_all-append names more (put name none v)

module _ (time : Timestamp → Bytes) {World : Type 0} {stub : Stub World}
    (store : IsStore stub) where
  section-Does : (title : Bytes) → Does time store (section time title) (λ v. v)
  unfolding line_text
  section-Does title = seq time store (print-Does time store (Line.heading []) ([], refl)) (
      seq time store (print-Does time store (Line.heading title) (title, refl))
        (print-Does time store (Line.heading []) ([], refl)))

  convert :
      {a : Action World Unit} {f g : View → View}
      → ((v : View) → f v ≡ g v)
      → Does time store a f
      → Does time store a g
  convert same does = record {
    run = λ w all. let (w', l, e, h, g) = does.run w all in (w', l, e, h ∙ same (store.at w), g);
  }

module _ (time : Timestamp → Bytes) {World : Type 0} {stub : Stub World} (store : IsStore stub)
    (showing : IsShowing time store) (e : UpsfCppExample) ⦃texts : MapField Bytes⦄
    ⦃flags : MapField Bool⦄ where
  create_user_planes-Does :
      (ups : List (Bytes × Bytes))
      → All (λ up. up.0 ≢ []) ups
      → Does time store
          (create_user_planes time stub e ups)
          (ensure_all store.accept store.merge (map (up_task e) ups))
  unfolding create_user_planes
  create_user_planes-Does [] h = record { run = λ w all. (w, [], refl, refl, all) }
  create_user_planes-Does ((name, desc) ∷ ups) h =
      seq time store (up_create-Does time store showing e name desc h.0) (
        seq time store (up_read-Does time store showing e name h.0)
          (seq time store (up_list-Does time store showing e) (create_user_planes-Does ups h.1)))

  delete_user_planes-Does :
      (ups : List (Bytes × Bytes))
      → Does time store (delete_user_planes time stub e ups) (remove_all (map (λ up. up.0) ups))
  unfolding delete_user_planes
  delete_user_planes-Does [] = record { run = λ w all. (w, [], refl, refl, all) }
  delete_user_planes-Does ((name, desc) ∷ ups) =
      seq time store (up_delete-Does time store showing e name) (delete_user_planes-Does ups)

  create_items-Does :
      IsNamed e
      → Does time store (create_items time stub e) (ensure_all store.accept store.merge (tasks e))
  unfolding create_items
  create_items-Does named =
      convert time store
        (λ v. sym (
          ensure_all-append store.accept store.merge (map (up_task e) e.up_names) (last_tasks e)
            (ensure store.accept store.merge (sg_task e e.sg_name) v)))
        (seq time store (section-Does time store _) (
          seq time store (sg_list-Does time store showing e) (
            seq time store (sg_create-Does time store showing e e.sg_name named.sg) (
              seq time store (sg_read-Does time store showing e e.sg_name named.sg) (
                seq time store (sg_list-Does time store showing e) (
                  seq time store (section-Does time store _) (
                    seq time store (up_list-Does time store showing e) (
                      seq time store (create_user_planes-Does e.up_names named.ups) (
                        seq time store (section-Does time store _) (
                          seq time store (tsf_list-Does time store showing e) (
                            seq time store
                              (tsf_create-Does time store showing e e.tsf_name named.tsf)
                              (seq time store
                                (tsf_read-Does time store showing e e.tsf_name named.tsf)
                                (seq time store (tsf_list-Does time store showing e) (
                                  seq time store (section-Does time store _) (
                                    seq time store (sgrp_list-Does time store showing e) (
                                      seq time store
                                        (sgrp_create-Does time store showing e e.sgrp_name
                                          named.sgrp)
                                        (seq time store
                                          (sgrp_read-Does time store showing e e.sgrp_name
                                            named.sgrp)
                                          (seq time store (sgrp_list-Does time store showing e) (
                                            seq time store (section-Does time store _) (
                                              seq time store (sctx_list-Does time store showing e) (
                                                seq time store
                                                  (sctx_create-Does time store showing e e.sctx_name
                                                    named.sctx)
                                                  (seq time store
                                                    (sctx_read-Does time store showing e e.sctx_name
                                                      named.sctx)
                                                    (seq time store
                                                      (sctx_list-Does time store showing e)
                                                      (seq time store (section-Does time store _) (
                                                        seq time store
                                                          (nc_list-Does time store showing e)
                                                          (seq time store
                                                            (nc_create-Does time store showing e
                                                            e.nc_name named.nc)
                                                            (seq time store
                                                            (nc_read-Does time store showing e
                                                            e.nc_name named.nc)
                                                            (nc_list-Does time store showing
                                                            e))))))))))))))))))))))))))))

  delete_items-Does : Does time store (delete_items time stub e) (remove_all (names e))
  unfolding delete_items
  delete_items-Does =
      convert time store
        (λ v. sym (remove_all-append (map (λ up. up.0) e.up_names) (e.sg_name ∷ []) _))
        (seq time store (section-Does time store _) (
          seq time store (nc_delete-Does time store showing e e.nc_name) (
            seq time store (nc_list-Does time store showing e) (
              seq time store (section-Does time store _) (
                seq time store (sctx_delete-Does time store showing e e.sctx_name) (
                  seq time store (sctx_list-Does time store showing e) (
                    seq time store (section-Does time store _) (
                      seq time store (sgrp_delete-Does time store showing e e.sgrp_name) (
                        seq time store (sgrp_list-Does time store showing e) (
                          seq time store (section-Does time store _) (
                            seq time store (tsf_delete-Does time store showing e e.tsf_name) (
                              seq time store (tsf_list-Does time store showing e) (
                                seq time store (section-Does time store _) (
                                  seq time store (delete_user_planes-Does e.up_names) (
                                    seq time store (up_list-Does time store showing e) (
                                      seq time store (section-Does time store _) (
                                        seq time store
                                          (sg_delete-Does time store showing e e.sg_name)
                                          (sg_list-Does time store showing e))))))))))))))))))

  -- On a server that stores items, makes only items that can be printed of items that can be
  -- printed, and stores only such items at the start, and with names that are not empty:
  -- create_items ends without an undefined read, and leaves the items that its tasks make of those
  -- at the start, one after the other, all of which can be printed.
  pub create_items_refines :
      IsNamed e
      → (w : World) → AllShow time (store.at w)
      → Ends time store
          (create_items time stub e w)
          tt
          (ensure_all store.accept store.merge (tasks e) (store.at w))
  create_items_refines named w all = (create_items-Does named).run w all

  -- On a server that stores items, makes only items that can be printed of items that can be
  -- printed, and stores only such items at the start: delete_items ends without an undefined read,
  -- removes what is stored under the program's names, and nothing else, and leaves items that can
  -- be printed.
  pub delete_items_refines :
      (w : World)
      → AllShow time (store.at w)
      → Ends time store (delete_items time stub e w) tt (remove_all (names e) (store.at w))
  delete_items_refines w all = delete_items-Does.run w all
