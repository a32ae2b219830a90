-- ===== src/Wrapper/Lists.antt =====
-- The list call of the C interface.
use libupsf.Prelude.{
  ◌%◌, ◌<◌, ℕ, zero, suc, ◌-◌, ◌≡◌, ap, true, List, [], ◌∷◌, ◌++◌, map, some, pos, arith, length,
  take, replicate, min,
}
use libupsf.Text.{Bytes}
use libupsf.Arrays.{fill}
use libupsf.Service.{Stub}
use libupsf.Client.{read_all}
use libupsf.Slots.{Slots, find}
use libupsf.Wrapper.{Exported, to_int, upsf_list}

module _ {A B : Type 0} (f : B → A) (z : A) where
  fill_over :
      (k : ℕ) (xs : List B)
      → fill (λ x a. f x) (min (length xs) k) xs (replicate k z)
        ≡ map f (take k xs) ++ replicate (k - length xs) z
  unfolding fill
  fill_over zero xs =
      let n : min (length xs) 0 ≡ 0 = omega arith in
      let m : 0 - length xs ≡ 0 = omega arith in rw (n, m)
  fill_over (suc k) [] =
      let n : min 0 (suc k) ≡ 0 = omega arith in
      let m : suc k - 0 ≡ suc k = omega arith in rw (n, m)
  fill_over (suc k) (x ∷ xs) =
      let n : min (suc (length xs)) (suc k) ≡ suc (min (length xs) k) = omega arith in
      let m : suc k - suc (length xs) ≡ k - length xs = omega arith in
      rw (n, m) (ap (◌∷◌ (f x)) (fill_over k xs))

to_int_small : (n : ℕ) → n < 2147483648 → to_int n ≡ pos n
unfolding to_int
to_int_small n h = let low : n % 4294967296 ≡ n = omega (arith, h) in ground (arith, low, h)

module _ {World : Type 0} (network : Bytes → Stub World) {C M : Type 0} (x : Exported C M) where
  -- For a thread with a slot, a list call that the server answers with fewer than 2 ^ 31 items
  -- writes them into the buffer in the order in which they came, as many as there is room for, and
  -- clears the rest of it; the buffer keeps its length. The result counts all items, also those
  -- without room.
  pub upsf_list_lem :
      (slots : Slots) (tid : ℕ) (w : World) {w' : World} {addr : Bytes} (items : List M)
      (elems : List C)
      → length items < 2147483648
      → find tid slots ≡ some addr
      → read_all (network addr) x.kind [] w ≡ (w', items, true)
      → upsf_list network x slots tid (some elems) w ≡ (
        w',
        some (
            map x.to_c (take (length elems) items)
            ++ replicate (length elems - length items) x.zero),
        pos (length items),
      )
  unfolding upsf_list
  upsf_list_lem slots tid w items elems few h e =
      let fits : min (length items) (length elems) < 2147483648 = omega (arith, few) in
      rw (h, upsf_list)
        (rw e (
          rw (
            to_int_small _ fits,
            to_int_small _ few,
            fill_over x.to_c x.zero (length elems) items,
          )))
