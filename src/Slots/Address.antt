-- ===== src/Slots/Address.antt =====
-- The port in an address is printed in decimal.
use native.Mathlib.Nat.{pow-suc}
use libupsf.Prelude.{
  ℕ, zero, suc, ◌+◌, ◌-◌, ◌*◌, ◌/◌, ◌%◌, ◌^◌, ◌<◌, ◌≡◌, refl, [], ◌∷◌, ◌++◌, arith, inl, inr,
  Bool-cases, ltb,
}
use libupsf.Text.{Bytes}
use libupsf.Slots.{digits}

-- What a text of decimal digits stands for, behind a number already read.
unfoldable pub decimal : ℕ → Bytes → ℕ
decimal acc [] = acc
decimal acc (c ∷ s) = decimal (acc * 10 + (c - b'0')) s

decimal-append :
    (acc c : ℕ) (s : Bytes) → decimal acc (s ++ c ∷ []) ≡ decimal acc s * 10 + (c - b'0')
unfolding decimal
decimal-append acc c [] = refl
decimal-append acc c (d ∷ s) = decimal-append (acc * 10 + (d - b'0')) c s

next : {d n : ℕ} → d ≡ n / 10 → d * 10 + (b'0' + n % 10 - b'0') ≡ n
next h = omega arith

-- The digits of a number below 10 ^ fuel read back as the number.
pub decimal-digits : (fuel n : ℕ) → n < 10 ^ fuel → decimal 0 (digits fuel n) ≡ n
unfolding digits decimal
decimal-digits zero n h = omega arith
decimal-digits (suc fuel) n h = elim (Bool-cases (ltb n 10)) [
  | inl small ↦ rw small (omega arith)
  | inr large ↦
      rw (large, decimal-append)
        (next (decimal-digits fuel (n / 10) (omega (arith, pow-suc 10 fuel))))
]
