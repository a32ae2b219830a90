-- ===== src/MapField.antt =====
-- The `map` fields of the messages. Protobuf implements them and fixes no order of iteration: what
-- upsf/upsf_c_mapping.cpp relies on is that `(*m)[key] = value` writes one entry.
use libupsf.Prelude.{
  ◌≡◌, refl, subst, Bool, true, false, ◌&&◌, List, [], ◌∷◌, Option, none, some, arith, inl, inr,
  Bool-cases, ◌==◌, if◌then◌else◌,
}
use libupsf.Text.{Bytes}

unfoldable pub same_bytes : Bytes → Bytes → Bool
same_bytes [] [] = true
same_bytes [] (d ∷ t) = false
same_bytes (c ∷ s) [] = false
same_bytes (c ∷ s) (d ∷ t) = c == d && same_bytes s t

module _ {V : Type 0} where
  unfoldable pub lookup : Bytes → List (Bytes × V) → Option V
  lookup k [] = none
  lookup k ((j, v) ∷ m) = if same_bytes j k then some v else lookup k m

  -- No key of the list is `k`.
  abbrev pub IsFresh : Bytes → List (Bytes × V) → Type 0
  IsFresh k [] = Unit
  IsFresh k ((j, v) ∷ m) = (same_bytes j k ≡ false) × IsFresh k m

  -- The keys of a map differ from one another.
  abbrev pub HasDistinctKeys : List (Bytes × V) → Type 0
  HasDistinctKeys [] = Unit
  HasDistinctKeys ((k, v) ∷ m) = IsFresh k m × HasDistinctKeys m

-- Assignment to an entry, as protobuf's Map documents it.
pub record MapField (V : Type 0) : Type 0 where
  pub insert : Bytes → V → List (Bytes × V) → List (Bytes × V)
  pub lookup-insert :
      (j k : Bytes) (v : V) (m : List (Bytes × V))
      → lookup j (insert k v m) ≡ (if same_bytes k j then some v else lookup j m)

pub same_bytes→eq : (s t : Bytes) → same_bytes s t ≡ true → s ≡ t
unfolding same_bytes
same_bytes→eq [] [] h = refl
same_bytes→eq [] (d ∷ t) h = cc
same_bytes→eq (c ∷ s) [] h = cc
same_bytes→eq (c ∷ s) (d ∷ t) h = ground (arith, same_bytes→eq s t)

pub same_bytes_refl : (s : Bytes) → same_bytes s s ≡ true
unfolding same_bytes
same_bytes_refl [] = refl
same_bytes_refl (c ∷ s) = ground (arith, same_bytes_refl s)

module _ {V : Type 0} ⦃ops : MapField V⦄ where
  unfoldable pub insert_all : List (Bytes × V) → List (Bytes × V) → List (Bytes × V)
  insert_all [] m = m
  insert_all ((k, v) ∷ rest) m = insert_all rest (ops.insert k v m)

  lookup-insert_all_fresh :
      (j : Bytes) (entries m : List (Bytes × V))
      → IsFresh j entries
      → lookup j (insert_all entries m) ≡ lookup j m
  unfolding insert_all
  lookup-insert_all_fresh j [] m h = refl
  lookup-insert_all_fresh j ((k, v) ∷ rest) m h =
      ground
        (arith, lookup-insert_all_fresh j rest (ops.insert k v m) h.1, ops.lookup-insert j k v m)

  lookup-insert_all_from :
      (j : Bytes) (entries m : List (Bytes × V))
      → HasDistinctKeys entries
      → lookup j m ≡ none
      → lookup j (insert_all entries m) ≡ lookup j entries
  unfolding insert_all lookup
  lookup-insert_all_from j [] m h e = e
  lookup-insert_all_from j ((k, v) ∷ rest) m h e = elim (Bool-cases (same_bytes k j)) [
    | inl same ↦
        let fresh : IsFresh j rest = subst (λ x. IsFresh x rest) (same_bytes→eq k j same) h.0 in
        ground (
          arith,
          lookup-insert_all_fresh j rest (ops.insert k v m) fresh,
          ops.lookup-insert j k v m,
        )
    | inr other ↦
        ground
          (arith, lookup-insert_all_from j rest (ops.insert k v m) h.1, ops.lookup-insert j k v m)
  ]

  -- Assigning entries with distinct keys to an empty map gives a map with these entries.
  pub lookup-insert_all :
      (j : Bytes) (entries : List (Bytes × V))
      → HasDistinctKeys entries
      → lookup j (insert_all entries []) ≡ lookup j entries
  unfolding lookup
  lookup-insert_all j entries h = lookup-insert_all_from j entries [] h refl
