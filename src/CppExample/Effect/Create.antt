-- ===== src/CppExample/Effect/Create.antt =====
-- What a create method does: the three ways through it.
use libupsf.Prelude.{
  ◌≡◌, refl, sym, ap, ◌∙◌, subst, Bool, true, false, List, [], ◌∷◌, ◌++◌, some, if◌then◌else◌,
}
use libupsf.Text.{Bytes}
use libupsf.Messages.{Timestamp}
use libupsf.Service.{Item, ListMergeStrategy, Stub, Kind}
use libupsf.Service.Store.{IsStore, put}
use libupsf.Service.Members.{IsMember}
use libupsf.Client.{create, update}
use libupsf.Client.Storing.{update_stored}
use libupsf.Printing.Common.{codes}
use libupsf.CppExample.Lines.{Line, line_text}
use libupsf.CppExample.Action.{Action, print, call, pure, behind, put_in_front, ◌>>=◌}
use libupsf.CppExample.Steps.{naming, create_new, update_item, create_item}
use libupsf.CppExample.Spec.{View}
use libupsf.CppExample.Effect.Runs.{
  Shows, AllShow, reply-Prints, request-Prints, if_Prints, AllShow-put, IsShowing, Ends, print_then,
  call_then,
}
use libupsf.CppExample.Effect.Steps.{member-Shows}

module _ (time : Timestamp → Bytes) {World : Type 0} {stub : Stub World} (store : IsStore stub)
    (exists make : Action World Bool) (update : Action World Unit) (w : World) where
  pub there :
      {v1 v2 : View}
      → Ends time store (exists w) true v1
      → ((w1 : World)
          → store.at w1 ≡ v1
          → AllShow time (store.at w1)
          → Ends time store (update w1) tt v2)
      → Ends time store (create_item exists make update w) tt v2
  unfolding create_item
  there (w1, l1, e1, h1, g1) next =
      let (w2, l2, e2, h2, g2) = next w1 h1 g1 in
      (
        w2,
        l1 ++ l2,
        ap
              (behind (λ there.
                (if there then pure true else make) >>= λ made. if made then update else pure tt))
              e1
            ∙ ap (λ o. put_in_front l1 (put_in_front [] o)) e2,
        h2,
        g2,
      )

  pub made :
      {v1 v2 v3 : View}
      → Ends time store (exists w) false v1
      → ((w1 : World)
          → store.at w1 ≡ v1
          → AllShow time (store.at w1)
          → Ends time store (make w1) true v2)
      → ((w2 : World)
          → store.at w2 ≡ v2
          → AllShow time (store.at w2)
          → Ends time store (update w2) tt v3)
      → Ends time store (create_item exists make update w) tt v3
  unfolding create_item
  made (w1, l1, e1, h1, g1) second third =
      let (w2, l2, e2, h2, g2) = second w1 h1 g1 in
      let (w3, l3, e3, h3, g3) = third w2 h2 g2 in
      let k : Bool → Action World Unit = λ made. if made then update else pure tt in
      (
        w3,
        l1 ++ (l2 ++ l3),
        ap (behind (λ there. (if there then pure true else make) >>= k)) e1
            ∙ ap (λ o. put_in_front l1 (behind k o)) e2
            ∙ ap (λ o. put_in_front l1 (put_in_front l2 o)) e3,
        h3,
        g3,
      )

  pub stopped :
      {v1 v2 : View}
      → Ends time store (exists w) false v1
      → ((w1 : World)
          → store.at w1 ≡ v1
          → AllShow time (store.at w1)
          → Ends time store (make w1) false v2)
      → Ends time store (create_item exists make update w) tt v2
  unfolding create_item
  stopped (w1, l1, e1, h1, g1) second =
      let (w2, l2, e2, h2, g2) = second w1 h1 g1 in
      let k : Bool → Action World Unit = λ made. if made then update else pure tt in
      (
        w2,
        l1 ++ (l2 ++ []),
        ap (behind (λ there. (if there then pure true else make) >>= k)) e1
            ∙ ap (λ o. put_in_front l1 (behind k o)) e2,
        h2,
        g2,
      )

module _ (time : Timestamp → Bytes) {World : Type 0} {stub : Stub World} (store : IsStore stub)
    (showing : IsShowing time store) {M : Type 0} {kind : Kind M} (mem : IsMember kind)
    (blank : Shows time (kind.wrap kind.default)) (title failure shown : Bytes) where
  pub new_ends :
      (c : M) (w : World) (b : Bool) (v : View)
      → Shows time (kind.wrap c)
      → store.at (create stub kind c w).0 ≡ v
      → AllShow time v
      → (create stub kind c w).2 ≡ b
      → (b ≡ true → Shows time (kind.wrap (create stub kind c w).1))
      → Ends time store (create_new time stub kind title failure shown c w) b v
  unfolding create_new line_text
  new_ends c w b v shows made good ok reply =
      let r = create stub kind c w in
      let last : M × Bool → Action World Bool = λ result.
        print time (if result.1 then Line.reply (kind.wrap result.0) else Line.failure failure)
        >>= λ _. pure result.1 in
      let second : Unit → Action World Bool = λ _. call (create stub kind c) >>= last in
      print_then time store (naming title shown (codes "create"))
        (λ _. print time (Line.request (kind.wrap c)) >>= second) w (_, refl)
        (print_then time store (Line.request (kind.wrap c)) second w
          (request-Prints time (kind.wrap c) shows)
          (call_then time store (create stub kind c) last w (
            print_then time store (if r.2 then Line.reply (kind.wrap r.1) else Line.failure failure)
              (λ _. pure r.2) r.0
              (if_Prints time r.2 (Line.reply (kind.wrap r.1)) (Line.failure failure)
                (λ h. reply-Prints time _ (reply (sym ok ∙ h))) (failure, refl))
              (
                r.0,
                [],
                ap (λ x. some (r.0, [], x)) ok,
                made,
                subst (AllShow time) (sym made) good,
              ))))

  pub update_ends :
      (s : ListMergeStrategy) (again : Action World Unit) (u : M) (w : World) (old : Item)
      → ((v : World) → (texts : List Bytes) × (again v ≡ some (v, texts, tt)))
      → Shows time (kind.wrap u)
      → AllShow time (store.at w)
      → store.at w (kind.name u) ≡ some old
      → Ends time store
          (update_item time stub kind title failure shown s u again w)
          tt
          (put (kind.name u) (some (store.merge s old (kind.wrap u))) (store.at w))
  unfolding update_item line_text
  update_ends s again u w old quiet shows all taken =
      let r = update stub kind u kind.default s w in
      let law = update_stored store mem u kind.default s old w taken in
      let merged = showing.merges s old (kind.wrap u) (all (kind.name u) old taken) shows in
      let made : store.at r.0
          ≡ put (kind.name u) (some (store.merge s old (kind.wrap u))) (store.at w) =
        λ i n. law.2 n i in
      let last : M × Bool → Action World Unit = λ result.
        print time (if result.1 then Line.reply (kind.wrap result.0) else Line.failure failure) in
      let third : Action World Unit = call (update stub kind u kind.default s) >>= last in
      let second : Unit → Action World Unit = λ _. again >>= λ _. third in
      let (texts, e) = quiet w in
      let reply : Shows time (kind.wrap r.1) =
        subst (λ m. Shows time (kind.wrap m)) (sym law.1) (member-Shows time mem blank _ merged) in
      let (text, told) =
        if_Prints time r.2 (Line.reply (kind.wrap r.1)) (Line.failure failure)
          (λ h. reply-Prints time _ reply) (failure, refl) in
      let ended : third w ≡ some (r.0, text ∷ [], tt) = rw told refl in
      print_then time store (naming title shown (codes "update"))
        (λ _. print time (Line.request (kind.wrap u)) >>= second) w (_, refl)
        (print_then time store (Line.request (kind.wrap u)) second w
          (request-Prints time (kind.wrap u) shows)
          (
            r.0,
            texts ++ (text ∷ []),
            ap (behind (λ _. third)) e ∙ ap (put_in_front texts) ended,
            made,
            subst (AllShow time) (sym made)
                (AllShow-put time (kind.name u) _ (store.at w) merged all),
          ))
