-- ===== src/RoundTrip/Strings.antt =====
-- Arrays of strings there and back.
use libupsf.Prelude.{◌≡◌, List, map, some, length, take}
use libupsf.Text.{Bytes, store, load, zero_string}
use libupsf.Text.Copy.{clip, load-store}
use libupsf.Arrays.{max_num, clamp, fill, fill_until, collect}
use libupsf.Arrays.Loops.{counted_round_trip, breaking_round_trip}
use libupsf.Structs.{zero_strings}

-- The first 16 texts, clipped.
abbrev pub normalise_texts : List Bytes → List Bytes
normalise_texts xs = map clip (take max_num xs)

pub strings_round_trip :
    (xs : List Bytes)
    → collect load (clamp (length xs)) (fill store (clamp (length xs)) xs zero_strings)
      ≡ some (normalise_texts xs)
unfolding zero_strings
strings_round_trip xs = counted_round_trip load store clip zero_string load-store xs

pub strings_break_round_trip :
    (xs : List Bytes)
    → collect load (fill_until store 0 xs zero_strings).1 (fill_until store 0 xs zero_strings).0
      ≡ some (normalise_texts xs)
unfolding zero_strings
strings_break_round_trip xs = breaking_round_trip load store clip zero_string load-store xs
