-- ===== src/Printing/Dump.antt =====
-- upsf_dump_service_gateway and its like in upsf/upsf_c_wrapper.cpp, which are copies of one another.
use libupsf.Prelude.{
  ℕ, true, suc, ◌≡◌, refl, ap, subst, [], ◌∷◌, ◌++◌, Option, none, some, arith, length, take, drop,
  min, ◌>>=◌,
}
use libupsf.Text.{Bytes, strncpy}
use libupsf.Printing.Plain.{is_plain, IsPlain}
use libupsf.Wrapper.{Exported, Returned, null, filled}

-- `str` is the caller's buffer of `size` bytes; a null pointer is `none`.
unfoldable pub upsf_dump :
    {C M : Type 0}
    → Exported C M
    → (M → Option Bytes)
    → Option Bytes
    → Option C
    → Option (Returned Bytes)
unfolding strncpy
upsf_dump e print none c = some null
upsf_dump e print (some str) none = some null
upsf_dump e print (some []) (some c) = some null
upsf_dump e print (some (s ∷ str)) (some c) = do
  m ← e.to_proto c e.kind.default
  text ← print m
  some (filled (strncpy (s ∷ str) text (min (length (s ∷ str)) (length text))))

strncpy-prefix :
    (dst text : Bytes)
    → is_plain text ≡ true
    → strncpy dst text (min (length dst) (length text))
      ≡ take (length dst) text ++ drop (length text) dst
unfolding strncpy is_plain
strncpy-prefix [] [] h = refl
strncpy-prefix [] (c ∷ text) h = let e : min 0 (suc (length text)) ≡ 0 = omega arith in rw e
strncpy-prefix (d ∷ dst) [] h = let e : min (suc (length dst)) 0 ≡ 0 = omega arith in rw e
strncpy-prefix (d ∷ dst) (c ∷ text) h =
    let e : min (suc (length dst)) (suc (length text)) ≡ suc (min (length dst) (length text)) =
      omega arith in
    rw e (ground (arith, strncpy-prefix dst text))

module _ {C M : Type 0} (x : Exported C M) (print : M → Option Bytes)
    (plain : (m : M) → IsPlain (print m)) where
  pub text_plain : (m : M) (text : Bytes) → print m ≡ some text → is_plain text ≡ true
  text_plain m text e = subst IsPlain e (plain m)

  -- Where the text of a message has no zero byte, a dump into a buffer that is not empty writes as much
  -- of the text as the buffer has room for and nothing else: no zero byte is written behind the text,
  -- so that what follows it is what stood there before.
  pub upsf_dump_lem :
      (s : ℕ) (str text : Bytes) (c : C) (m : M)
      → x.to_proto c x.kind.default ≡ some m
      → print m ≡ some text
      → upsf_dump x print (some (s ∷ str)) (some c)
        ≡ some (filled (take (length (s ∷ str)) text ++ drop (length text) (s ∷ str)))
  unfolding upsf_dump
  upsf_dump_lem s str text c m made printed =
      rw (made, printed)
        (ap (λ t. some (filled t)) (strncpy-prefix (s ∷ str) text (text_plain m text printed)))
