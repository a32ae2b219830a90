-- ===== src/Tests/Keeper.antt =====
-- A server that stores items in a list, the newest first, and updates by replacement.
use libupsf.Prelude.{
  ◌≡◌, refl, ap, inl, inr, Bool-cases, Option-cases, All, true, false, List, [], ◌∷◌, Option, arith,
  none, some, if◌then◌else◌,
}
use libupsf.Text.{Bytes}
use libupsf.MapField.{same_bytes, same_bytes→eq, same_bytes_refl}
use libupsf.Service.{Item, ItemType, Stub}
use libupsf.Messages.{default_session_context}
use libupsf.Service.Store.{IsStore, item_name, selected, put, has_type}

abbrev pub at : List Item → Bytes → Option Item
at [] n = none
at (i ∷ items) n = if same_bytes (item_name i) n then some i else at items n

abbrev drop_name : Bytes → List Item → List Item
drop_name n [] = []
drop_name n (i ∷ items) =
    let rest = drop_name n items in if same_bytes (item_name i) n then rest else i ∷ rest

abbrev first_type : List ItemType → ItemType
first_type [] = ItemType.shard
first_type (t ∷ ts) = t

-- Each name once.
abbrev fresh : List Item → List Item
fresh [] = []
fresh (i ∷ items) = let rest = fresh items in i ∷ drop_name (item_name i) rest

abbrev named_items : List Bytes → ItemType → List Item → List Item
named_items [] t items = fresh items
named_items (n ∷ ns) t items = selected t (at items n)

abbrev pub keeper : Stub (List Item)
keeper = record {
  create_v1 =
      λ i w. elim (at w (item_name i)) [ none ↦ (i ∷ w, i, true) | some old ↦ (w, i, false) ];
  update_v1 = λ req w. elim (at w (item_name req.item)) [
    | none ↦ (w, req.item, false)
    | some old ↦ (req.item ∷ w, req.item, true)
  ];
  delete_v1 =
      λ name w. (drop_name name w, name, elim (at w name) [ none ↦ false | some old ↦ true ]);
  lookup_v1 = λ spec w. (w, record default_session_context { spec = spec }, true);
  read_v1 = λ req w.
      (w, record { items = named_items req.name (first_type req.itemtype) w; finish = λ n. true });
}

pub at_named : (w : List Item) (n : Bytes) (i : Item) → at w n ≡ some i → item_name i ≡ n
at_named [] n i h = absurd (ground arith)
at_named (j ∷ w) n i h = ground (arith, same_bytes→eq (item_name j) n, at_named w n i)

pub drop_name_lem :
    (name : Bytes) (w : List Item) (n : Bytes) → at (drop_name name w) n ≡ put name none (at w) n
drop_name_lem name [] n = ground arith
drop_name_lem name (j ∷ w) n = elim (Bool-cases (same_bytes (item_name j) name)) [
  | inl same ↦
      let agree = ap (λ k. same_bytes k n) (same_bytes→eq (item_name j) name same) in
      ground (arith, agree, drop_name_lem name w n)
  | inr other ↦
      let clash =
        λ (h : same_bytes name n ≡ true). ap (same_bytes (item_name j)) (same_bytes→eq name n h) in
      ground (arith, clash, drop_name_lem name w n)
]

abbrev Stored : List Item → Item → Type 0
Stored w i = (n : Bytes) × (at w n ≡ some i)

drop_name-Stored :
    (i : Item) (w xs : List Item)
    → All (Stored w) xs
    → All (Stored (i ∷ w)) (drop_name (item_name i) xs)
drop_name-Stored i w [] h = tt
drop_name-Stored i w (j ∷ xs) ((n, e), h) =
    elim (Bool-cases (same_bytes (item_name j) (item_name i))) [
      | inl same ↦ rw same (drop_name-Stored i w xs h)
      | inr other ↦
          let named : item_name j ≡ n = at_named w n j e in
          let apart : same_bytes (item_name i) n ≡ false =
            elim (Bool-cases (same_bytes (item_name i) n)) [
              | inl clash ↦
                  let equal = same_bytes→eq (item_name i) n clash in
                  absurd (ground (arith, equal, named, other, same_bytes_refl n))
              | inr apart ↦ apart
            ] in
          rw other ((n, rw apart e), drop_name-Stored i w xs h)
    ]

fresh-Stored : (w : List Item) → All (Stored w) (fresh w)
fresh-Stored [] = tt
fresh-Stored (i ∷ w) = (
  (item_name i, rw (same_bytes_refl (item_name i))),
  drop_name-Stored i w (fresh w) (fresh-Stored w),
)

pub named_items-Stored :
    (ns : List Bytes) (t : ItemType) (w : List Item) → All (Stored w) (named_items ns t w)
named_items-Stored [] t w = fresh-Stored w
named_items-Stored (n ∷ ns) t w = elim (Option-cases (at w n)) [
  | inl free ↦ rw free tt
  | inr (i, e) ↦ elim (Bool-cases (has_type t i)) [
    | inl typed ↦ rw (e, typed) ((n, e), tt)
    | inr other ↦ rw (e, other) tt
  ]
]

unfoldable pub keeper-IsStore : IsStore keeper
keeper-IsStore = record {
  at = at;
  accept = λ i. i;
  merge = λ s old new. new;
  named = at_named;
  create_free = λ i w h. rw (keeper, h) (refl, refl, λ n. refl);
  create_taken = λ i old w h. rw (keeper, h) (refl, λ n. refl);
  update_known = λ s i old w h. rw (keeper, h) (refl, refl, λ n. refl);
  update_unknown = λ s i w h. rw (keeper, h) (refl, λ n. refl);
  delete_any = λ name w n. drop_name_lem name w n;
  delete_known = λ name i w h. rw (keeper, h) refl;
  delete_unknown = λ name w h. rw (keeper, h) refl;
  read_same = λ req w n. refl;
  read_stored = λ req w. named_items-Stored req.name (first_type req.itemtype) w;
  read_named = λ t name w. (refl, λ k. refl);
}
