-- ===== src/Locks/Counting.antt =====
-- Families of threads, and sums over the first `n` of them.
use libupsf.Prelude.{
  ℕ, zero, suc, ◌+◌, ◌<◌, ◌≤◌, ◌≡◌, ◌≢◌, refl, ◌==◌, if◌then◌else◌, arith, ◌⊎◌, inl, inr,
}

abbrev pub set {ℓ} : {A : Type ℓ} → (ℕ → A) → ℕ → A → ℕ → A
set f i a j = if i == j then a else f j

abbrev pub total : {A : Type 0} → (A → ℕ) → ℕ → (ℕ → A) → ℕ
total weight zero f = 0
total weight (suc n) f = weight (f n) + total weight n f

pub zero_or : (n : ℕ) → (n ≡ 0) ⊎ (0 < n)
zero_or zero = inl refl
zero_or (suc n) = inr (omega arith)

module _ {A : Type 0} (weight : A → ℕ) where
  total-set_beyond :
      (n i : ℕ) (f : ℕ → A) (a : A) → n ≤ i → total weight n (set f i a) ≡ total weight n f
  total-set_beyond zero i f a h = refl
  total-set_beyond (suc n) i f a h = ground (arith, total-set_beyond n i f a)

  -- Setting one thread changes the sum by what that thread weighs.
  pub total-set :
      (n i : ℕ) (f : ℕ → A) (a : A)
      → i < n
      → total weight n (set f i a) + weight (f i) ≡ total weight n f + weight a
  total-set zero i f a h = absurd (omega arith)
  total-set (suc n) i f a h = ground (arith, total-set n i f a, total-set_beyond n i f a)

  -- A sum that is not zero has a thread that weighs something.
  pub total_some :
      (n : ℕ) (f : ℕ → A) → 0 < total weight n f → (i : ℕ) × (i < n) × (0 < weight (f i))
  total_some zero f h = absurd (omega arith)
  total_some (suc n) f h = elim (zero_or (weight (f n))) [
    | inl e ↦ let (i, l, w) = total_some n f (omega arith) in (i, omega arith, w)
    | inr w ↦ (n, omega arith, w)
  ]

  pub total_none : (n : ℕ) (f : ℕ → A) → ((i : ℕ) → i < n → weight (f i) ≡ 0) → total weight n f ≡ 0
  total_none zero f h = refl
  total_none (suc n) f h = omega (arith, h n, total_none n f (λ i l. h i (omega arith)))

  pub total_one : (n i : ℕ) (f : ℕ → A) → i < n → weight (f i) ≤ total weight n f
  total_one zero i f h = absurd (omega arith)
  total_one (suc n) i f h = ground (arith, total_one n i f)

  pub total_two :
      (n i j : ℕ) (f : ℕ → A)
      → i < n
      → j < n
      → i ≢ j
      → weight (f i) + weight (f j) ≤ total weight n f
  total_two zero i j f hi hj h = absurd (omega arith)
  total_two (suc n) i j f hi hj h =
      ground (arith, total_two n i j f, total_one n i f, total_one n j f)
