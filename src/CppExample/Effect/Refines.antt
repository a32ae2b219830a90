-- ===== src/CppExample/Effect/Refines.antt =====
-- Each create method refines its task.
use mathlib.Core.Bool.{false≢true}
use libupsf.Prelude.{
  ◌≡◌, ◌≢◌, refl, sym, ap, ◌∙◌, subst, Bool, true, false, List, [], Option, none, some, Bool-cases,
  Option-cases, inl, inr, arith,
}
use libupsf.Text.{Bytes}
use libupsf.Messages.{Timestamp}
use libupsf.MapField.{same_bytes, same_bytes→eq, same_bytes_refl}
use libupsf.Service.{Item, ListMergeStrategy, Stub, Kind}
use libupsf.Service.Store.{IsStore, put, selected, has_type}
use libupsf.Service.Members.{IsMember}
use libupsf.Client.{read, create}
use libupsf.Client.Storing.{read_keeps, read_found, read_absent, create_stored, create_refused}
use libupsf.CppExample.Action.{Action}
use libupsf.CppExample.Steps.{item_exists, create_new, update_item, create_item}
use libupsf.CppExample.Spec.{Task, View, ensured, ensure}
use libupsf.CppExample.Effect.Runs.{Shows, AllShow, AllShow-put, IsShowing, Ends, Does}
use libupsf.CppExample.Effect.Steps.{member-Shows}
use libupsf.CppExample.Effect.Create.{there, made, stopped, new_ends, update_ends}

-- Setting a name to what it has changes nothing.
pub put_known : (name n : Bytes) (o : Option Item) (v : View) → v name ≡ o → v n ≡ put name o v n
put_known name n o v h = elim (Bool-cases (same_bytes name n)) [
  | inl same ↦ rw same (ap v (sym (same_bytes→eq name n same)) ∙ h)
  | inr other ↦ rw other refl
]

put_same : (name : Bytes) (o : Option Item) (view : View) → put name o view name ≡ o
put_same name o view = rw (same_bytes_refl name)

-- Setting a name twice leaves the second item there.
put_twice :
    (name : Bytes) (p o : Option Item) (view : View)
    → put name p (put name o view) ≡ put name p view
put_twice name p o view = λ i n. put_twice_at n i
  where
    put_twice_at : (n : Bytes) → put name p (put name o view) n ≡ put name p view n
    put_twice_at n = ground arith

module _ (time : Timestamp → Bytes) {World : Type 0} {stub : Stub World} (store : IsStore stub)
    (showing : IsShowing time store) {M E : Type 0} {kind : Kind M} {asked : Kind E}
    (mem : IsMember kind) (mem' : IsMember asked) (blank : Shows time (kind.wrap kind.default))
    (title failure failure' shown : Bytes) (s : ListMergeStrategy) (again : Action World Unit)
    (quiet : (v : World) → (texts : List Bytes) × (again v ≡ some (v, texts, tt))) (c u : M)
    (named : kind.name c ≡ kind.name u) (c_shows : Shows time (kind.wrap c))
    (u_shows : Shows time (kind.wrap u)) where
  abbrev task : Task
  task = record {
    name = kind.name u;
    created = kind.wrap c;
    updated = kind.wrap u;
    strategy = s;
    asked = asked.itemtype;
  }

  abbrev exists_action : Action World Bool
  exists_action = item_exists stub asked (kind.name u)

  abbrev make_action : Action World Bool
  make_action = create_new time stub kind title failure shown c

  abbrev update_action : Action World Unit
  update_action = update_item time stub kind title failure' shown s u again

  exists_ends :
      (w : World) (b : Bool)
      → AllShow time (store.at w)
      → (read stub asked (kind.name u) asked.default w).2 ≡ b
      → Ends time store (exists_action w) b (store.at w)
  unfolding item_exists
  exists_ends w b all ok =
      let r = read stub asked (kind.name u) asked.default w in
      let kept : store.at r.0 ≡ store.at w =
        λ i n. read_keeps store mem' (kind.name u) asked.default w n i in
      (r.0, [], ap (λ x. some (r.0, [], x)) ok, kept, subst (AllShow time) (sym kept) all)

  absent :
      (w : World)
      → kind.name u ≢ []
      → selected asked.itemtype (store.at w (kind.name u)) ≡ []
      → (read stub asked (kind.name u) asked.default w).2 ≡ false
  absent w given nothing = read_absent store mem' (kind.name u) asked.default w given nothing

  -- The name is free: the item is created, and updated.
  create_fresh :
      (w : World)
      → kind.name u ≢ []
      → AllShow time (store.at w)
      → store.at w (kind.name u) ≡ none
      → Ends time store
          (create_item exists_action make_action update_action w)
          tt
          (ensure store.accept store.merge task (store.at w))
  create_fresh w given all free =
      let accepted = store.accept (kind.wrap c) in
      let accepted_shows = showing.accepts (kind.wrap c) c_shows in
      let v2 : View = put (kind.name u) (some accepted) (store.at w) in
      let v2_shows = AllShow-put time (kind.name u) accepted (store.at w) accepted_shows all in
      let ensures : put (kind.name u) (some (store.merge s accepted (kind.wrap u))) v2
          ≡ ensure store.accept store.merge task (store.at w) =
        put_twice (kind.name u) _ _ (store.at w)
        ∙ ap (λ o. put (kind.name u) (ensured store.accept store.merge task o) (store.at w))
            (sym free) in
      made time store exists_action make_action update_action w
        (exists_ends w false all (absent w given (ap (selected asked.itemtype) free)))
        (λ w1 h1 all1.
          let free1 : store.at w1 (kind.name c) ≡ none =
            rw named (ap (λ v. v (kind.name u)) h1 ∙ free) in
          let law = create_stored store mem c w1 free1 in
          let v2_made : store.at (create stub kind c w1).0 ≡ v2 =
            (λ i n. law.2 n i)
            ∙ ap (λ n. put n (some accepted) (store.at w1)) named
            ∙ ap (put (kind.name u) (some accepted)) h1 in
          new_ends time store showing mem blank title failure shown c w1 true v2 c_shows v2_made
            v2_shows law.1
            (λ _.
              subst (λ m. Shows time (kind.wrap m)) (sym law.0)
                (member-Shows time mem blank accepted accepted_shows)))
        (λ w2 h2 all2.
          let there2 : store.at w2 (kind.name u) ≡ some accepted =
            ap (λ v. v (kind.name u)) h2 ∙ put_same (kind.name u) (some accepted) (store.at w) in
          let (w3, l3, e3, h3, g3) =
            update_ends time store showing mem blank title failure' shown s again u w2 accepted
              quiet u_shows all2 there2 in
          (
            w3,
            l3,
            e3,
            h3 ∙ ap (put (kind.name u) (some (store.merge s accepted (kind.wrap u)))) h2 ∙ ensures,
            g3,
          ))

  -- The name is taken by an item that the method asks for: it is only updated.
  create_known :
      (w : World) (e : E)
      → AllShow time (store.at w)
      → store.at w (kind.name u) ≡ some (asked.wrap e)
      → Ends time store
          (create_item exists_action make_action update_action w)
          tt
          (ensure store.accept store.merge task (store.at w))
  create_known w e all taken =
      let merged = store.merge s (asked.wrap e) (kind.wrap u) in
      let ensures : put (kind.name u) (some merged) (store.at w)
          ≡ ensure store.accept store.merge task (store.at w) =
        rw (taken, mem'.typed e) refl in
      there time store exists_action make_action update_action w
        (exists_ends w true all (read_found store mem' (kind.name u) asked.default e w taken).1)
        (λ w1 h1 all1.
          let (w3, l3, e3, h3, g3) =
            update_ends time store showing mem blank title failure' shown s again u w1
              (asked.wrap e) quiet u_shows all1 (ap (λ v. v (kind.name u)) h1 ∙ taken) in
          (w3, l3, e3, h3 ∙ ap (put (kind.name u) (some merged)) h1 ∙ ensures, g3))

  -- The name is taken by an item that the method does not ask for: nothing changes.
  create_blocked :
      (w : World) (i : Item)
      → kind.name u ≢ []
      → AllShow time (store.at w)
      → store.at w (kind.name u) ≡ some i
      → has_type asked.itemtype i ≡ false
      → Ends time store
          (create_item exists_action make_action update_action w)
          tt
          (ensure store.accept store.merge task (store.at w))
  create_blocked w i given all taken other =
      let nothing : selected asked.itemtype (some i) ≡ [] = rw other refl in
      let ensures : store.at w ≡ ensure store.accept store.merge task (store.at w) = λ j n.
        put_known (kind.name u) n (ensured store.accept store.merge task (store.at w (kind.name u)))
          (store.at w) (rw (taken, other) refl) j in
      stopped time store exists_action make_action update_action w
        (exists_ends w false all (absent w given (ap (selected asked.itemtype) taken ∙ nothing)))
        (λ w1 h1 all1.
          let taken1 : store.at w1 (kind.name c) ≡ some i =
            rw named (ap (λ v. v (kind.name u)) h1 ∙ taken) in
          let law = create_refused store mem c i w1 taken1 in
          new_ends time store showing mem blank title failure shown c w1 false _ c_shows
            ((λ j n. law.1 n j) ∙ h1 ∙ ensures) (subst (AllShow time) ensures all) law.0
            (λ h. absurd (false≢true h)))

  -- The method sets its name as its task tells, and nothing else.
  pub create_item-Does :
      kind.name u ≢ []
      → Does time store
          (create_item exists_action make_action update_action)
          (ensure store.accept store.merge task)
  create_item-Does given = record {
    run = λ w all. elim (Option-cases (store.at w (kind.name u))) [
      | inl free ↦ create_fresh w given all free
      | inr (i, taken) ↦ elim (mem'.cases i) [
        | inl (e, same) ↦ create_known w e all (taken ∙ ap some same)
        | inr (other, _) ↦ create_blocked w i given all taken other
      ]
    ];
  }
