-- ===== src/Text.antt =====
-- Text in a fixed buffer: upsf_string_t of upsf/upsf.h, and the C library calls by which
-- upsf/upsf_c_mapping.cpp fills and reads it. A byte is a number.
pub mod Copy
use libupsf.Prelude.{
  ℕ, zero, suc, ◌-◌, Bool, List, [], ◌∷◌, Option, none, some, length, replicate, ◌>>=◌, ◌==◌,
  if◌then◌else◌,
}

-- The contents of a std::string; it may hold zero bytes.
abbrev pub Bytes : Type 0
Bytes = List ℕ

abbrev pub max_string_size : ℕ
max_string_size = 64

pub record UpsfString : Type 0 where
  pub str : Bytes
  pub len : ℕ

-- What memset leaves.
unfoldable pub zero_string : UpsfString
zero_string = record { str = replicate max_string_size 0; len = 0 }

-- The bytes in front of the first zero byte.
unfoldable pub until_nul : Bytes → Bytes
until_nul [] = []
until_nul (c ∷ s) = if c == 0 then [] else c ∷ until_nul s

-- strncpy(dst, src, n), with `src` the bytes behind c_str(): what follows a zero byte is not
-- copied, the rest of the n bytes is filled with zeros, and `dst` behind them stays.
unfoldable pub strncpy : Bytes → Bytes → ℕ → Bytes
strncpy dst src zero = dst
strncpy [] src (suc n) = []
strncpy (d ∷ dst) [] (suc n) = 0 ∷ strncpy dst [] n
strncpy (d ∷ dst) (c ∷ src) (suc n) = c ∷ strncpy dst (if c == 0 then [] else src) n

unfoldable pub strlen : Bytes → ℕ
unfolding until_nul
strlen s = length (until_nul s)

-- std::string(buffer): undefined where the buffer has no terminating zero.
unfoldable pub read_string : Bytes → Option Bytes
read_string [] = none
read_string (c ∷ s) = if c == 0 then some [] else (do t ← read_string s; some (c ∷ t))

-- strncpy(to.str, text, sizeof(to.str) - 1); to.len = strlen(to.str)
unfoldable pub store : Bytes → UpsfString → UpsfString
unfolding strncpy strlen
store text to =
    let str = strncpy to.str text (max_string_size - 1) in record { str = str; len = strlen str }

-- std::string(from.str)
unfoldable pub load : UpsfString → Option Bytes
unfolding read_string
load from = read_string from.str
