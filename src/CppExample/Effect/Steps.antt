-- ===== src/CppExample/Effect/Steps.antt =====
-- What a list, a read and a delete leave.
use mathlib.Core.Bool.{true≢false}
use libupsf.Prelude.{
  ℕ, suc, ◌≡◌, ◌≢◌, refl, sym, ap, ◌∙◌, All, Bool, true, false, List, [], ◌∷◌, none, some,
  Option-cases, inl, inr, if◌then◌else◌, subst,
}
use libupsf.Text.{Bytes}
use libupsf.Messages.{Timestamp}
use libupsf.Service.{Item, Stub, Kind, member, member_or}
use libupsf.Service.Store.{IsStore, put, selected}
use libupsf.Service.Members.{IsMember}
use libupsf.Client.{read, read_all, delete, gather}
use libupsf.Client.Storing.{read_keeps, read_all_keeps, read_found, read_absent}
use libupsf.Printing.Common.{codes, texts}
use libupsf.CppExample.Lines.{Line, line_text}
use libupsf.CppExample.Action.{print}
use libupsf.CppExample.Steps.{naming, print_entries, list_items, read_item, delete_item}
use libupsf.CppExample.Effect.Runs.{
  Shows, AllShow, reply-Prints, entry-Prints, if_Prints, AllShow-remove, Does, seq, call-Does,
  call_changes, print-Does,
}

module _ (time : Timestamp → Bytes) {M : Type 0} {kind : Kind M} (mem : IsMember kind)
    (blank : Shows time (kind.wrap kind.default)) where
  -- The member of an item that can be printed can be printed.
  pub member-Shows : (i : Item) → Shows time i → Shows time (kind.wrap (member kind i))
  member-Shows i shown = elim (mem.cases i) [
    | inl (m, same) ↦
        let here : member kind i ≡ m = rw (same, member_or, mem.wraps m) refl in
        rw here (subst (Shows time) same shown)
    | inr (other, unwraps) ↦ rw (member_or, unwraps) blank
  ]

  gather-Shows :
      (items : List Item)
      → All (Shows time) items
      → All (λ m. Shows time (kind.wrap m)) (gather kind items)
  unfolding gather
  gather-Shows [] h = tt
  gather-Shows (i ∷ items) (shown, h) = elim (mem.cases i) [
    | inl (m, same) ↦
        rw (same, gather, mem.wraps m) (subst (Shows time) same shown, gather-Shows items h)
    | inr (other, unwraps) ↦ rw (gather, unwraps) (gather-Shows items h)
  ]

module _ (time : Timestamp → Bytes) {World : Type 0} {stub : Stub World}
    (store : IsStore stub) where
  stored_show :
      (w : World) (items : List Item)
      → AllShow time (store.at w)
      → All (λ i. (n : Bytes) × (store.at w n ≡ some i)) items
      → All (Shows time) items
  stored_show w [] shown h = tt
  stored_show w (i ∷ items) shown ((n, e), h) = (shown n i e, stored_show w items shown h)

  module _ {M : Type 0} {kind : Kind M} (mem : IsMember kind)
      (blank : Shows time (kind.wrap kind.default)) where
    print_entries-Does :
        (i : ℕ) (items : List M)
        → All (λ m. Shows time (kind.wrap m)) items
        → Does time store (print_entries time kind i items) (λ v. v)
    unfolding print_entries
    print_entries-Does i [] h = record { run = λ w shown. (w, [], refl, refl, shown) }
    print_entries-Does i (m ∷ items) (h, hs) =
        seq time store
          (print-Does time store (Line.entry i (kind.wrap m)) (entry-Prints time i (kind.wrap m) h))
          (print_entries-Does (suc i) items hs)

    print_either :
        (b : Bool) (items : List M) (failure : Bytes)
        → All (λ m. Shows time (kind.wrap m)) items
        → Does time store
            (if b then print_entries time kind 0 items else print time (Line.failure failure))
            (λ v. v)
    unfolding line_text
    print_either true items failure h = print_entries-Does 0 items h
    print_either false items failure h =
        print-Does time store (Line.failure failure) (failure, refl)

    pub list-Does :
        (title failure : Bytes) → Does time store (list_items time stub kind title failure) (λ v. v)
    unfolding list_items line_text read_all
    list-Does title failure =
        seq time store
          (print-Does time store (Line.heading (texts (codes "=== " ∷ title ∷ codes " list" ∷ [])))
            (_, refl))
          (call-Does time store (read_all stub kind [])
            (λ result.
              if result.1
              then print_entries time kind 0 result.0
              else print time (Line.failure failure))
            (read_all_keeps store mem [])
            (λ w shown.
              let r = read_all stub kind [] w in
              print_either r.2 r.1 failure
                (gather-Shows time mem blank _ (stored_show w _ shown (store.read_stored _ w)))))

    -- What a read by name found.
    found-Shows :
        (name : Bytes) (w : World)
        → name ≢ []
        → AllShow time (store.at w)
        → (read stub kind name kind.default w).2 ≡ true
        → Shows time (kind.wrap (read stub kind name kind.default w).1)
    found-Shows name w given shown ok =
        let failed =
          λ (h : (read stub kind name kind.default w).2 ≡ false). true≢false (sym ok ∙ h) in
        elim (Option-cases (store.at w name)) [
          | inl free ↦ absurd (
              failed (
                read_absent store mem name kind.default w given (ap (selected kind.itemtype) free)))
          | inr (i, taken) ↦ elim (mem.cases i) [
            | inl (m, same) ↦
                let there = taken ∙ ap some same in
                subst (λ k. Shows time (kind.wrap k))
                  (sym (read_found store mem name kind.default m w there).0)
                  (subst (Shows time) same (shown name i taken))
            | inr (other, unwraps) ↦
                let nothing : selected kind.itemtype (some i) ≡ [] = rw other refl in
                absurd (
                  failed (
                    read_absent store mem name kind.default w given
                      (ap (selected kind.itemtype) taken ∙ nothing)))
          ]
        ]

    pub read-Does :
        (title failure name : Bytes)
        → name ≢ []
        → Does time store (read_item time stub kind title failure name) (λ v. v)
    unfolding read_item line_text
    read-Does title failure name given =
        seq time store (print-Does time store (naming title name (codes "read")) (_, refl)) (
          call-Does time store (read stub kind name kind.default)
            (λ result.
              print time
                (if result.1 then Line.reply (kind.wrap result.0) else Line.failure failure))
            (read_keeps store mem name kind.default)
            (λ w shown.
              let r = read stub kind name kind.default w in
              print-Does time store _ (
                if_Prints time r.2 (Line.reply (kind.wrap r.1)) (Line.failure failure)
                  (λ ok. reply-Prints time _ (found-Shows name w given shown ok)) (failure, refl))))

  -- A delete removes its name and nothing else, whether or not the name is known.
  pub delete-Does :
      (title failure name : Bytes)
      → Does time store (delete_item time stub title failure name) (put name none)
  unfolding delete_item line_text delete
  delete-Does title failure name =
      seq time store (print-Does time store (naming title name (codes "delete")) (_, refl)) (
        call_changes time store (delete stub name)
          (λ result. print time (if result.1 then Line.deleted result.0 else Line.failure failure))
          (put name none) (λ w n. store.delete_any name w n) (AllShow-remove time name)
          (λ w shown.
            let r = delete stub name w in
            print-Does time store _ (
              if_Prints time r.2 (Line.deleted r.1) (Line.failure failure) (λ ok. (_, refl))
                (failure, refl))))
