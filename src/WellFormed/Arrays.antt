-- ===== src/WellFormed/Arrays.antt =====
-- Strings and arrays that can be read.
use libupsf.Prelude.{
  ℕ, zero, suc, ◌≤◌, ◌≡◌, refl, List, [], ◌∷◌, Option, none, some, length, take, replicate,
  length-replicate, All, arith, ◌>>=◌,
}
use libupsf.Text.{Bytes, UpsfString, zero_string, store, load}
use libupsf.Text.Copy.{clip, load-store}
use libupsf.Arrays.{max_num, clamp, fill, fill_until, collect}
use libupsf.Arrays.Loops.{clamp-le, clamp-eq-min, length-fill, fill_until-eq-fill}
use libupsf.Structs.{zero_strings}

abbrev pub IsDefined {ℓ} : {A : Type ℓ} → Option A → Type ℓ
IsDefined {A} o = (a : A) × (o ≡ some a)

pub IsDefined-some {ℓ} : {A : Type ℓ} (a : A) → IsDefined (some a)
IsDefined-some a = (a, refl)

pub IsDefined-bind {ℓ κ} :
    {A : Type ℓ} {B : Type κ} (m : Option A) (f : A → Option B)
    → IsDefined m
    → ((a : A) → IsDefined (f a))
    → IsDefined (m >>= f)
IsDefined-bind none f h k = absurd (cc h.1)
IsDefined-bind (some a) f h k = k a

abbrev pub IsTerminated : UpsfString → Type 0
IsTerminated s = IsDefined (load s)

-- An array of full length, and a size within it up to which the elements have a property.
pub record Holds {A : Type 0} (P : A → Type 0) (size : ℕ) (arr : List A) : Type 0 where
  pub full : length arr ≡ max_num
  pub bounded : size ≤ max_num
  pub each : All P (take size arr)

pub store-IsTerminated : (t : Bytes) → IsTerminated (store t zero_string)
store-IsTerminated t = (clip t, load-store t)

module _ {A B : Type 0} (f : B → A → A) (z : A) (P : A → Type 0) (p : (x : B) → P (f x z)) where
  All-fill :
      (n k : ℕ) (xs : List B) → n ≤ k → n ≤ length xs → All P (take n (fill f n xs (replicate k z)))
  unfolding fill
  All-fill zero k xs h e = tt
  All-fill (suc n) zero xs h e = absurd (omega arith)
  All-fill (suc n) (suc k) [] h e = absurd (omega arith)
  All-fill (suc n) (suc k) (x ∷ xs) h e = (p x, All-fill n k xs (omega arith) (omega arith))

  -- The counted loop leaves an array that holds what was written.
  pub fill-Holds :
      (xs : List B)
      → Holds P (clamp (length xs)) (fill f (clamp (length xs)) xs (replicate max_num z))
  fill-Holds xs = record {
    full = omega (
      arith,
      length-fill f (clamp (length xs)) xs (replicate max_num z),
      length-replicate max_num z,
    );
    bounded = clamp-le (length xs);
    each =
        All-fill (clamp (length xs)) max_num xs (clamp-le (length xs))
          (omega (arith, clamp-eq-min (length xs)));
  }

  -- So does the breaking loop.
  pub fill_until-Holds :
      (xs : List B)
      → Holds P
          (fill_until f 0 xs (replicate max_num z)).1
          (fill_until f 0 xs (replicate max_num z)).0
  fill_until-Holds xs =
      let same = fill_until-eq-fill f xs (replicate max_num z) (length-replicate max_num z) in
      rw (same.0, same.1) (fill-Holds xs)

pub strings-Holds :
    (xs : List Bytes)
    → Holds IsTerminated (clamp (length xs)) (fill store (clamp (length xs)) xs zero_strings)
unfolding zero_strings
strings-Holds xs = fill-Holds store zero_string IsTerminated store-IsTerminated xs

pub strings_break-Holds :
    (xs : List Bytes)
    → Holds IsTerminated
        (fill_until store 0 xs zero_strings).1
        (fill_until store 0 xs zero_strings).0
unfolding zero_strings
strings_break-Holds xs = fill_until-Holds store zero_string IsTerminated store-IsTerminated xs

module _ {A B : Type 0} (g : A → Option B) (P : A → Type 0)
    (p : (a : A) → P a → IsDefined (g a)) where
  collect_each :
      (n : ℕ) (arr : List A) → n ≤ length arr → All P (take n arr) → IsDefined (collect g n arr)
  unfolding collect
  collect_each zero arr h e = ([], refl)
  collect_each (suc n) [] h e = absurd (omega arith)
  collect_each (suc n) (a ∷ arr) h e =
      let here = p a e.0 in
      let rest = collect_each n arr (omega arith) e.1 in (here.0 ∷ rest.0, rw (here.1, rest.1))

  -- The reading loop stays in the array.
  pub collect-IsDefined : (n : ℕ) (arr : List A) → Holds P n arr → IsDefined (collect g n arr)
  collect-IsDefined n arr h = collect_each n arr (omega arith) h.each

pub strings-IsDefined :
    (n : ℕ) (arr : List UpsfString) → Holds IsTerminated n arr → IsDefined (collect load n arr)
strings-IsDefined n arr h = collect-IsDefined load IsTerminated (λ a t. t) n arr h
