-- ===== src/Arrays/Loops.antt =====
-- The two filling loops agree, and reading back a filled array gives its entries.
use libupsf.Prelude.{
  ℕ, zero, suc, ◌+◌, ◌≤◌, ◌≡◌, refl, ap, sym, ◌∙◌, List, [], ◌∷◌, map, Option, some, arith, length,
  take, replicate, length-replicate, min,
}
use libupsf.Arrays.{max_num, clamp, fill, fill_until, collect}

pub clamp-eq-min : (n : ℕ) → clamp n ≡ min max_num n
unfolding clamp
clamp-eq-min n = ground arith

pub clamp-le : (n : ℕ) → clamp n ≤ max_num
unfolding clamp
clamp-le n = ground arith

pub clamp_fits : (n : ℕ) → n ≤ max_num → clamp n ≡ n
unfolding clamp
clamp_fits n h = ground arith

module _ {ℓ κ} {A : Type ℓ} {B : Type κ} (f : B → A → A) where
  pub length-fill : (n : ℕ) (from : List B) (to : List A) → length (fill f n from to) ≡ length to
  unfolding fill
  length-fill zero from to = refl
  length-fill (suc n) [] to = refl
  length-fill (suc n) (x ∷ from) [] = refl
  length-fill (suc n) (x ∷ from) (a ∷ to) = ap suc (length-fill n from to)

  fill-nil : (n : ℕ) (from : List B) → fill f n from [] ≡ []
  unfolding fill
  fill-nil zero from = refl
  fill-nil (suc n) [] = refl
  fill-nil (suc n) (x ∷ from) = refl

  -- Entries beyond the array's end make no difference.
  fill_beyond :
      (n : ℕ) (from : List B) (to : List A)
      → length to ≤ n
      → fill f (min n (length from)) from to ≡ fill f (length from) from to
  unfolding fill
  fill_beyond n [] to h = ground arith
  fill_beyond zero (x ∷ from) [] h = ground arith
  fill_beyond (suc n) (x ∷ from) [] h = fill-nil (min (suc n) (suc (length from))) (x ∷ from)
  fill_beyond zero (x ∷ from) (a ∷ to) h = absurd (omega arith)
  fill_beyond (suc n) (x ∷ from) (a ∷ to) h =
      let e : min (suc n) (suc (length from)) ≡ suc (min n (length from)) = omega arith in
      rw e (ap (◌∷◌ (f x a)) (fill_beyond n from to (omega arith)))

  array-fill_until :
      (i : ℕ) (from : List B) (to : List A)
      → length to + i ≡ max_num
      → (fill_until f i from to).0 ≡ fill f (length from) from to
  unfolding fill fill_until
  array-fill_until i [] to e = refl
  array-fill_until i (x ∷ from) [] e = refl
  array-fill_until i (x ∷ from) (a ∷ []) e = ground (arith, fill-nil (length from) from)
  array-fill_until i (x ∷ from) (a ∷ b ∷ to) e =
      let ih = array-fill_until (suc i) from (b ∷ to) (omega arith) in ground arith

  size-fill_until :
      (i : ℕ) (from : List B) (to : List A)
      → length to + i ≡ max_num
      → (fill_until f i from to).1 ≡ i + min (length to) (length from)
  unfolding fill_until
  size-fill_until i [] to e = omega arith
  size-fill_until i (x ∷ from) [] e = omega arith
  size-fill_until i (x ∷ from) (a ∷ []) e = ground arith
  size-fill_until i (x ∷ from) (a ∷ b ∷ to) e =
      let ih = size-fill_until (suc i) from (b ∷ to) (omega arith) in ground arith

  -- On an array of full size the loop that breaks writes what the counted loop up to the clamped
  -- size writes, and ends with that size.
  pub fill_until-eq-fill :
      (from : List B) (to : List A)
      → length to ≡ max_num
      → ((fill_until f 0 from to).0 ≡ fill f (clamp (length from)) from to)
        × ((fill_until f 0 from to).1 ≡ clamp (length from))
  fill_until-eq-fill from to e = (
    rw clamp-eq-min (
        array-fill_until 0 from to (omega arith) ∙ sym (fill_beyond max_num from to (omega arith))),
    omega (arith, size-fill_until 0 from to (omega arith), clamp-eq-min (length from)),
  )

module _ {ℓ κ μ} {A : Type ℓ} {B : Type κ} {C : Type μ} (g : A → Option C) (f : B → A → A)
    (h : B → C) (z : A) where
  -- Where g reads back h of what f wrote into a zeroed element, the array reads back as a whole.
  pub collect-fill :
      ((x : B) → g (f x z) ≡ some (h x))
      → (n k : ℕ) (xs : List B) → n ≤ k
      → n ≤ length xs
      → collect g n (fill f n xs (replicate k z)) ≡ some (map h (take n xs))
  unfolding collect fill
  collect-fill p zero k xs u v = refl
  collect-fill p (suc n) zero xs u v = absurd (omega arith)
  collect-fill p (suc n) (suc k) [] u v = absurd (omega arith)
  collect-fill p (suc n) (suc k) (x ∷ xs) u v =
      rw (p x, collect-fill p n k xs (omega arith) (omega arith))

take-min {ℓ} : {B : Type ℓ} (n : ℕ) (xs : List B) → take (min n (length xs)) xs ≡ take n xs
take-min zero xs = let e : min 0 (length xs) ≡ 0 = omega arith in rw e
take-min (suc n) [] = let e : min (suc n) 0 ≡ 0 = omega arith in rw e
take-min (suc n) (x ∷ xs) =
    let e : min (suc n) (suc (length xs)) ≡ suc (min n (length xs)) = omega arith in
    rw e (ap (◌∷◌ x) (take-min n xs))

-- Up to the clamped size is up to the capacity.
take-clamp {ℓ} : {B : Type ℓ} (xs : List B) → take (clamp (length xs)) xs ≡ take max_num xs
take-clamp xs = rw clamp-eq-min (take-min max_num xs)

module _ {ℓ κ μ} {A : Type ℓ} {B : Type κ} {C : Type μ} (g : A → Option C) (f : B → A → A)
    (h : B → C) (z : A) (p : (x : B) → g (f x z) ≡ some (h x)) where
  -- Where g reads back h of what f writes into a zeroed element, what the counted loop writes into
  -- a zeroed array of 16 reads back as h of each entry, cut to 16 entries.
  pub counted_round_trip :
      (xs : List B)
      → collect g (clamp (length xs)) (fill f (clamp (length xs)) xs (replicate max_num z))
        ≡ some (map h (take max_num xs))
  counted_round_trip xs =
      collect-fill g f h z p (clamp (length xs)) max_num xs (clamp-le (length xs))
        (omega (arith, clamp-eq-min (length xs)))
      ∙ ap (λ ys. some (map h ys)) (take-clamp xs)

  -- So does what the breaking loop wrote.
  pub breaking_round_trip :
      (xs : List B)
      → collect g
          (fill_until f 0 xs (replicate max_num z)).1
          (fill_until f 0 xs (replicate max_num z)).0
        ≡ some (map h (take max_num xs))
  breaking_round_trip xs =
      let same = fill_until-eq-fill f xs (replicate max_num z) (length-replicate max_num z) in
      rw (same.0, same.1) (counted_round_trip xs)
