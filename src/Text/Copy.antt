-- ===== src/Text/Copy.antt =====
-- What storing a text in a upsf_string_t keeps of it.
use libupsf.Prelude.{
  ℕ, zero, suc, ◌≤◌, ◌<◌, ◌≡◌, refl, ap, [], ◌∷◌, some, arith, length, take, replicate, take_all,
  length-take, ◌==◌, if◌then◌else◌,
}
use libupsf.Text.{
  Bytes, UpsfString, zero_string, max_string_size, until_nul, strncpy, strlen, read_string, store,
  load,
}

-- The part of a text that a buffer of 64 bytes can hold.
abbrev pub clip : Bytes → Bytes
clip t = take 63 (until_nul t)

-- The text fits the buffer: at most 63 bytes, none of them zero.
pub record FitsText (t : Bytes) : Type 0 where
  pub short : length t ≤ 63
  pub plain : until_nul t ≡ t

-- A buffer as a map from a message leaves it.
pub record IsStored (s : UpsfString) : Type 0 where
  pub size : length s.str ≡ max_string_size
  pub bounded : s.len < max_string_size
  pub text : Bytes
  pub terminated : load s ≡ some text
  pub counted : s.len ≡ length text

pub length-strncpy : (dst src : Bytes) (n : ℕ) → length (strncpy dst src n) ≡ length dst
unfolding strncpy
length-strncpy dst src zero = refl
length-strncpy [] src (suc n) = refl
length-strncpy (d ∷ dst) [] (suc n) = ap suc (length-strncpy dst [] n)
length-strncpy (d ∷ dst) (c ∷ src) (suc n) =
    ap suc (length-strncpy dst (if c == 0 then [] else src) n)

-- A zeroed buffer with one byte more than is copied is terminated by it.
pub read_string-strncpy :
    (n : ℕ) (t : Bytes)
    → read_string (strncpy (replicate (suc n) 0) t n) ≡ some (take n (until_nul t))
unfolding strncpy read_string until_nul
read_string-strncpy zero t = refl
read_string-strncpy (suc n) [] = refl
read_string-strncpy (suc n) (c ∷ t) = ground (arith, read_string-strncpy n t)

until_nul-strncpy :
    (n : ℕ) (t : Bytes) → until_nul (strncpy (replicate (suc n) 0) t n) ≡ take n (until_nul t)
unfolding strncpy until_nul
until_nul-strncpy zero t = refl
until_nul-strncpy (suc n) [] = refl
until_nul-strncpy (suc n) (c ∷ t) = ground (arith, until_nul-strncpy n t)

-- A text stored in a zeroed buffer reads back as what stands in front of its first zero byte, cut
-- to 63 bytes.
pub load-store : (t : Bytes) → load (store t zero_string) ≡ some (clip t)
unfolding load store zero_string
load-store t = read_string-strncpy 63 t

pub len-store : (t : Bytes) → (store t zero_string).len ≡ length (clip t)
unfolding store strlen zero_string
len-store t = ap length (until_nul-strncpy 63 t)

-- A text that fits is kept whole.
pub clip_fits : (t : Bytes) → FitsText t → clip t ≡ t
clip_fits t h = rw h.plain (take_all 63 t h.short)

pub size-store : (t : Bytes) → length (store t zero_string).str ≡ max_string_size
unfolding store zero_string
size-store t = length-strncpy (replicate 64 0) t 63

-- Whatever text is stored in a zeroed buffer, it is terminated inside its 64 bytes, and the length
-- field counts the bytes in front of the terminator.
pub store-IsStored : (t : Bytes) → IsStored (store t zero_string)
store-IsStored t = record {
  size = size-store t;
  bounded = omega (arith, len-store t, length-take 63 (until_nul t));
  text = clip t;
  terminated = load-store t;
  counted = len-store t;
}
