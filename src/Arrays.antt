-- ===== src/Arrays.antt =====
-- The arrays of upsf/upsf.h with their sizes, and the loops of upsf/upsf_c_mapping.cpp over them.
pub mod Loops
use libupsf.Prelude.{
  ℕ, zero, suc, Bool, List, [], ◌∷◌, Option, none, some, replicate, ltb, ◌>>=◌, ◌==◌, if◌then◌else◌,
}

-- UPSF_MAX_NUM_..., which are all 16.
abbrev pub max_num : ℕ
max_num = 16

-- (size < MAX) ? size : MAX
unfoldable pub clamp : ℕ → ℕ
clamp size = if ltb size max_num then size else max_num

module _ {ℓ κ} {A : Type ℓ} {B : Type κ} where
  -- for (i = 0; i < size; i++) to[i] = f(from(i), to[i]), for a size that is at most that of `from`.
  -- A write behind the end of `to` is left out; the size that is passed rules it out.
  unfoldable pub fill : (B → A → A) → ℕ → List B → List A → List A
  fill f zero from to = to
  fill f (suc size) [] to = to
  fill f (suc size) (x ∷ from) [] = []
  fill f (suc size) (x ∷ from) (a ∷ to) = f x a ∷ fill f size from to

  -- i = 0; for (it : from) { to[i] = f(it, to[i]); if (++i == MAX) break; }
  -- The result is the array and the last i.
  unfoldable pub fill_until : (B → A → A) → ℕ → List B → List A → List A × ℕ
  fill_until f i [] to = (to, i)
  fill_until f i (x ∷ from) [] = ([], i)
  fill_until f i (x ∷ from) (a ∷ to) =
      let rest = fill_until f (suc i) from to in
      if suc i == max_num then (f x a ∷ to, suc i) else (f x a ∷ rest.0, rest.1)

  -- for (i = 0; i < size; i++) use g(from[i]); a read behind the end of the array is undefined.
  unfoldable pub collect : (A → Option B) → ℕ → List A → Option (List B)
  collect g zero from = some []
  collect g (suc size) [] = none
  collect g (suc size) (a ∷ from) = do b ← g a; bs ← collect g size from; some (b ∷ bs)
