-- ===== src/CppExample/Effect/Cleanup.antt =====
-- The program leaves nothing behind, and a network connection that is there is not updated.
use libupsf.Prelude.{
  ◌≡◌, ◌≢◌, refl, ap, ◌∙◌, Bool, true, false, ◌||◌, List, [], ◌∷◌, ◌++◌, Option, arith, none, some,
  map, if◌then◌else◌,
}
use libupsf.Text.{Bytes}
use libupsf.MapField.{MapField, same_bytes}
use libupsf.Messages.{
  Timestamp, NetworkConnection, default_network_connection, default_session_context,
}
use libupsf.Service.{
  Item, ItemType, Kind, ListMergeStrategy, Stub, session_context_kind, network_connection_kind,
}
use libupsf.Service.Store.{IsStore, has_type, put, selected}
use libupsf.Service.Members.{session_context-IsMember, network_connection-IsMember}
use libupsf.Client.{create, read}
use libupsf.Client.Storing.{read_absent, read_keeps, create_refused}
use libupsf.Printing.Common.{codes, texts}
use libupsf.CppExample.Lines.{Line, item_text, line_text}
use libupsf.CppExample.Action.{Action, print, call, pure, behind, put_in_front, ◌>>=◌}
use libupsf.CppExample.Steps.{create_new, update_item, create_item, item_exists}
use libupsf.CppExample.Requests.{UpsfCppExample, nc_request}
use libupsf.CppExample.Methods.Sessions.{nc_create, nc_exists}
use libupsf.CppExample.Items.{create_items, delete_items, Flags, flagged, main}
use libupsf.CppExample.Spec.{
  Task, View, ensure, ensure_all, remove_all, up_task, last_tasks, tasks, names, IsNamed,
}
use libupsf.CppExample.Effect.Runs.{AllShow, IsShowing, after}
use libupsf.CppExample.Effect.Printable.{nc_named-Shows}
use libupsf.CppExample.Effect.Items.{create_items_refines, delete_items_refines}

-- Whether a name is among some names.
abbrev pub among : Bytes → List Bytes → Bool
among n [] = false
among n (name ∷ names) = same_bytes name n || among n names

remove_all_lem :
    (names : List Bytes) (v : View) (n : Bytes)
    → remove_all names v n ≡ (if among n names then none else v n)
remove_all_lem [] v n = refl
remove_all_lem (name ∷ names) v n = ground (arith, remove_all_lem names (put name none v) n)

among-append : (n : Bytes) (xs ys : List Bytes) → among n (xs ++ ys) ≡ (among n xs || among n ys)
among-append n [] ys = refl
among-append n (x ∷ xs) ys = ground (arith, among-append n xs ys)

abbrev task_names : List Task → List Bytes
task_names ts = map (λ t. t.name) ts

ensure_all_other :
    (accept : Item → Item) (merge : ListMergeStrategy → Item → Item → Item) (ts : List Task)
    (v : View) (n : Bytes)
    → among n (task_names ts) ≡ false
    → ensure_all accept merge ts v n ≡ v n
ensure_all_other accept merge [] v n h = refl
ensure_all_other accept merge (t ∷ ts) v n h =
    ground (arith, ensure_all_other accept merge ts (ensure accept merge t v) n)

among-planes :
    (e : UpsfCppExample) (n : Bytes) (ups : List (Bytes × Bytes)) (ts : List Task)
    → among n (task_names (map (up_task e) ups ++ ts))
      ≡ (among n (map (λ up. up.0) ups) || among n (task_names ts))
among-planes e n [] ts = refl
among-planes e n ((name, desc) ∷ ups) ts = ground (arith, among-planes e n ups ts)

settle :
    (b : Bool) (x y : Option Item)
    → (b ≡ false → x ≡ y)
    → (if b then none else x) ≡ (if b then none else y)
settle true x y h = refl
settle false x y h = h refl

module _ (e : UpsfCppExample) ⦃texts : MapField Bytes⦄ ⦃flags : MapField Bool⦄ where
  same_names : (n : Bytes) → among n (names e) ≡ false → among n (task_names (tasks e)) ≡ false
  same_names n h =
      let left = among-append n (map (λ up. up.0) e.up_names) (e.sg_name ∷ []) in
      let right = among-planes e n e.up_names (last_tasks e) in ground (arith, left, right)

-- A create method that finds nothing and whose create fails is over.
stopped_run :
    {World : Type 0} (exists make : Action World Bool) (update : Action World Unit) (w : World)
    {w1 w2 : World} {lines : List Bytes}
    → exists w ≡ some (w1, [], false)
    → make w1 ≡ some (w2, lines, false)
    → create_item exists make update w ≡ some (w2, lines ++ [], tt)
unfolding create_item
stopped_run {World} exists make update w e1 e2 =
    let k : Bool → Action World Unit = λ made. if made then update else pure tt in
    ap (behind (λ there. (if there then pure true else make) >>= k)) e1
    ∙ ap (λ o. put_in_front [] (behind k o)) e2

module _ (time : Timestamp → Bytes) {World : Type 0} (stub : Stub World) {M : Type 0}
    (kind : Kind M) (title failure shown : Bytes) where
  -- A create that the server refuses prints the request and the failure.
  refused_new :
      (c : M) (w : World) (text : Bytes)
      → item_text time (kind.wrap c) ≡ some text
      → (create stub kind c w).2 ≡ false
      → (texts : List Bytes) × (create_new time stub kind title failure shown c w
          ≡ some ((create stub kind c w).0, texts, false))
  unfolding create_new line_text
  refused_new c w text e refused =
      let heading =
        texts (codes "=== " ∷ title ∷ codes "(" ∷ shown ∷ codes ") " ∷ codes "create" ∷ []) in
      let request = codes "<<< request: " ++ text in
      let last : M × Bool → Action World Bool = λ result.
        print time (if result.1 then Line.reply (kind.wrap result.0) else Line.failure failure)
        >>= λ _. pure result.1 in
      let second : Unit → Action World Bool = λ _. call (create stub kind c) >>= last in
      let printed : print time (Line.request (kind.wrap c)) w ≡ some (w, request ∷ [], tt) =
        rw e refl in
      let failed : second tt w ≡ some ((create stub kind c w).0, failure ∷ [], false) =
        rw refused refl in
      (
        heading ∷ request ∷ failure ∷ [],
        ap (λ o. put_in_front (heading ∷ []) (behind second o)) printed
            ∙ ap (λ o. put_in_front (heading ∷ []) (put_in_front (request ∷ []) o)) failed,
      )

module _ (time : Timestamp → Bytes) (e : UpsfCppExample) ⦃texts : MapField Bytes⦄
    ⦃flags : MapField Bool⦄ where
  -- On a server that stores items, nc_create ends without an undefined read and changes nothing at
  -- all where its name, which is not empty, is that of a network connection that is there.
  pub nc_create_blocked :
      {World : Type 0} {stub : Stub World} (store : IsStore stub) (name : Bytes)
      → name ≢ []
      → (m : NetworkConnection) (w : World) → store.at w name ≡ some (Item.network_connection m)
      → (w' : World) × (texts : List Bytes) × (nc_create time stub e name w ≡ some (w', texts, tt))
        × (store.at w' ≡ store.at w)
  unfolding nc_create nc_exists item_exists has_type
  nc_create_blocked {World} {stub} store name given m w h =
      let c = record default_network_connection { name = name } in
      let r = read stub session_context_kind name default_session_context w in
      let absent =
        read_absent store session_context-IsMember name default_session_context w given
          (ap (selected ItemType.session_context) h) in
      let kept = read_keeps store session_context-IsMember name default_session_context w in
      let law =
        create_refused store network_connection-IsMember c (Item.network_connection m) r.0
          (kept name ∙ h) in
      let (text, shows) = nc_named-Shows time name in
      let (lines, told) =
        refused_new time stub network_connection_kind (codes "NetworkConnection")
          (codes "failure: create network connection") name c r.0 text shows law.0 in
      let exists : Action World Bool = item_exists stub session_context_kind name in
      let make : Action World Bool =
        create_new time stub network_connection_kind (codes "NetworkConnection")
          (codes "failure: create network connection") name c in
      let looked : exists w ≡ some (r.0, [], false) = ap (λ b. some (r.0, [], b)) absent in
      (
        (create stub network_connection_kind c r.0).0,
        lines ++ [],
        stopped_run exists make
            (update_item time stub network_connection_kind (codes "NetworkConnection")
              (codes "failure: update traffic steering function") name ListMergeStrategy.union
              (nc_request e name)
              (print time (Line.plain (network_connection_kind.wrap (nc_request e name)))))
            w looked told,
        λ i n. (law.1 n ∙ kept n) i,
      )

module _ (time : Timestamp → Bytes) ⦃texts : MapField Bytes⦄ ⦃flags : MapField Bool⦄ where
  -- The whole program, on the server at the address that its flags give, if that server stores
  -- items, makes only items that can be printed of items that can be printed, and stores only such
  -- items at the start, and if the names given are not empty: the program ends without an
  -- undefined read, the names of the program are free afterwards, those of the two user planes
  -- included, and every other name has what it had.
  pub main_lem :
      {World : Type 0} (network : Bytes → Stub World) (f : Flags)
      (store : IsStore (network (flagged f).srvaddr))
      → IsShowing time store
      → IsNamed (flagged f)
      → (w : World) → AllShow time (store.at w)
      → (w' : World) × (texts : List Bytes) × (main time network f w ≡ some (w', texts, tt))
        × ((n : Bytes)
            → store.at w' n ≡ (if among n (names (flagged f)) then none else store.at w n))
  unfolding main
  main_lem network f store showing named w all =
      let p = flagged f in
      let v = ensure_all store.accept store.merge (tasks p) (store.at w) in
      let (w', lines, told, left, _) =
        after time store (create_items time (network p.srvaddr) p)
          (λ _. delete_items time (network p.srvaddr) p) w
          (create_items_refines time store showing p named w all)
          (λ w1 h1 all1.
            let (w2, l2, e2, h2, g2) = delete_items_refines time store showing p w1 all1 in
            (w2, l2, e2, h2 ∙ ap (remove_all (names p)) h1, g2)) in
      (
        w',
        lines,
        told,
        λ n.
            ap (λ u. u n) left
            ∙ remove_all_lem (names p) v n
            ∙ settle (among n (names p)) (v n) (store.at w n) (λ h.
              ensure_all_other store.accept store.merge (tasks p) (store.at w) n
                (same_names p n h)),
      )
