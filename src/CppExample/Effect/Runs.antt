-- ===== src/CppExample/Effect/Runs.antt =====
-- What it means that an action of the example ends with some items stored. It ends if all that it prints
-- is defined, which holds as long as every stored item can be printed.
use libupsf.Prelude.{
  ℕ, pos, ◌≡◌, refl, ap, ◌∙◌, sym, subst, Bool, true, false, List, [], ◌∷◌, ◌++◌, Option, none,
  some, Bool-cases, inl, inr, if◌then◌else◌, arith,
}
use libupsf.Text.{Bytes}
use libupsf.MapField.{same_bytes}
use libupsf.Messages.{Timestamp}
use libupsf.Service.{Item, ListMergeStrategy, Stub}
use libupsf.Service.Store.{IsStore, put}
use libupsf.Slots.{show_int}
use libupsf.Printing.Common.{codes, texts}
use libupsf.CppExample.Lines.{Line, item_text, line_text}
use libupsf.CppExample.Action.{Action, print, call, behind, put_in_front, ◌>>=◌, ◌>>◌}
use libupsf.CppExample.Spec.{View}

module _ (time : Timestamp → Bytes) where
  -- The item can be printed: no number in it reads in front of a table of names.
  abbrev pub Shows : Item → Type 0
  Shows i = (text : Bytes) × (item_text time i ≡ some text)

  abbrev pub AllShow : View → Type 0
  AllShow v = (n : Bytes) (i : Item) → v n ≡ some i → Shows i

  abbrev pub Prints : Line → Type 0
  Prints line = (text : Bytes) × (line_text time line ≡ some text)

  pub reply-Prints : (i : Item) → Shows i → Prints (Line.reply i)
  unfolding line_text
  reply-Prints i (text, e) = (codes ">>> reply: " ++ text, rw e refl)

  pub request-Prints : (i : Item) → Shows i → Prints (Line.request i)
  unfolding line_text
  request-Prints i (text, e) = (codes "<<< request: " ++ text, rw e refl)

  pub plain-Prints : (i : Item) → Shows i → Prints (Line.plain i)
  unfolding line_text
  plain-Prints i (text, e) = (text, e)

  pub entry-Prints : (n : ℕ) (i : Item) → Shows i → Prints (Line.entry n i)
  unfolding line_text
  entry-Prints n i (text, e) =
      (texts (codes ">>> " ∷ show_int (pos n) ∷ codes ". " ∷ text ∷ []), rw e refl)

  pub if_Prints :
      (b : Bool) (x y : Line) → (b ≡ true → Prints x) → Prints y → Prints (if b then x else y)
  if_Prints true x y hx hy = hx refl
  if_Prints false x y hx hy = hy

  pub AllShow-put :
      (name : Bytes) (i : Item) (v : View) → Shows i → AllShow v → AllShow (put name (some i) v)
  AllShow-put name i v shown all n j e = elim (Bool-cases (same_bytes name n)) [
    | inl same ↦
        let here : some i ≡ some j = subst (λ b. (if b then some i else v n) ≡ some j) same e in
        subst Shows (ap (λ o. elim o [ none ↦ i | some k ↦ k ]) here) shown
    | inr other ↦ all n j (subst (λ b. (if b then some i else v n) ≡ some j) other e)
  ]

  pub AllShow-remove : (name : Bytes) (v : View) → AllShow v → AllShow (put name none v)
  AllShow-remove name v all n j e = elim (Bool-cases (same_bytes name n)) [
    | inl same ↦
        let here : none ≡ some j = subst (λ b. (if b then none else v n) ≡ some j) same e in
        absurd (ground (arith, here))
    | inr other ↦ all n j (subst (λ b. (if b then none else v n) ≡ some j) other e)
  ]

  -- Of items that can be printed the server makes only such items.
  pub record IsShowing {World : Type 0} {stub : Stub World} (store : IsStore stub) : Type 0 where
    pub accepts : (i : Item) → Shows i → Shows (store.accept i)
    pub merges :
        (s : ListMergeStrategy) (old new : Item)
        → Shows old
        → Shows new
        → Shows (store.merge s old new)

  module _ {World : Type 0} {stub : Stub World} (store : IsStore stub) where
    -- The run has a result, and leaves the items of the view.
    abbrev pub Ends : {A : Type 0} → Option (World × List Bytes × A) → A → View → Type 0
    Ends o a v =
        (w : World) × (texts : List Bytes) × (o ≡ some (w, texts, a))
        × (store.at w ≡ v)
        × AllShow (store.at w)

    -- If all stored items can be printed, the action ends, does `f` to the items, and leaves only items
    -- that can be printed.
    pub record Does (a : Action World Unit) (f : View → View) : Type 0 where
      pub run : (w : World) → AllShow (store.at w) → Ends (a w) tt (f (store.at w))

    pub after :
        {A B : Type 0} (m : Action World A) (k : A → Action World B) (w : World) {a : A} {b : B}
        {v v' : View}
        → Ends (m w) a v
        → ((w' : World) → store.at w' ≡ v → AllShow (store.at w') → Ends (k a w') b v')
        → Ends ((m >>= k) w) b v'
    after m k w (w1, l1, e1, h1, g1) next =
        let (w2, l2, e2, h2, g2) = next w1 h1 g1 in
        (w2, l1 ++ l2, ap (behind k) e1 ∙ ap (put_in_front l1) e2, h2, g2)

    pub seq :
        {a b : Action World Unit} {f g : View → View}
        → Does a f
        → Does b g
        → Does (a >> b) (λ v. g (f v))
    seq {a} {b} {f} {g} ha hb = record {
      run = λ w shown.
          after a (λ _. b) w (ha.run w shown)
            (λ w' h all. let (w2, l2, e2, h2, g2) = hb.run w' all in (w2, l2, e2, h2 ∙ ap g h, g2));
    }

    pub print-Does : (line : Line) → Prints line → Does (print time line) (λ v. v)
    print-Does line (text, e) = record { run = λ w shown. (w, text ∷ [], rw e refl, refl, shown) }

    -- A call with what it changes, and what follows it.
    pub call_changes :
        {A B : Type 0} (f : World → World × A × B) (k : A × B → Action World Unit)
        (change : View → View) {g : View → View}
        → ((w : World) (n : Bytes) → store.at (f w).0 n ≡ change (store.at w) n)
        → ((v : View) → AllShow v → AllShow (change v))
        → ((w : World) → AllShow (store.at w) → Does (k ((f w).1, (f w).2)) g)
        → Does (call f >>= k) (λ v. g (change v))
    call_changes f k change {g} made shows next = record {
      run = λ w shown.
          let changed : store.at (f w).0 ≡ change (store.at w) = λ i n. made w n i in
          let (w2, l2, e2, h2, g2) =
            (next w shown).run (f w).0 (subst AllShow (sym changed) (shows _ shown)) in
          (w2, l2, ap (put_in_front []) e2, h2 ∙ ap g changed, g2);
    }

    -- A call that leaves the items, and what follows it.
    pub call-Does :
        {A B : Type 0} (f : World → World × A × B) (k : A × B → Action World Unit) {g : View → View}
        → ((w : World) (n : Bytes) → store.at (f w).0 n ≡ store.at w n)
        → ((w : World) → AllShow (store.at w) → Does (k ((f w).1, (f w).2)) g)
        → Does (call f >>= k) g
    call-Does f k {g} keeps next = call_changes f k (λ v. v) keeps (λ v h. h) next

    -- The first step of an action at a world, and what follows it.
    pub print_then :
        {B : Type 0} (line : Line) (k : Unit → Action World B) (w : World) {b : B} {v : View}
        → Prints line
        → Ends (k tt w) b v
        → Ends ((print time line >>= k) w) b v
    print_then line k w (text, e) (w2, l2, e2, h2, g2) =
        let printed : print time line w ≡ some (w, text ∷ [], tt) = rw e refl in
        (w2, text ∷ l2, ap (behind k) printed ∙ ap (put_in_front (text ∷ [])) e2, h2, g2)

    pub call_then :
        {A B E : Type 0} (f : World → World × A × B) (k : A × B → Action World E) (w : World)
        {b : E} {v : View}
        → Ends (k ((f w).1, (f w).2) (f w).0) b v
        → Ends ((call f >>= k) w) b v
    call_then f k w (w2, l2, e2, h2, g2) = (w2, l2, ap (put_in_front []) e2, h2, g2)
