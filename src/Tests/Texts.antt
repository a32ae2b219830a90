-- ===== src/Tests/Texts.antt =====
-- Texts, arrays and map fields.
use libupsf.Prelude.{◌≡◌, refl, List, length, replicate}
use libupsf.Text.{Bytes, store, zero_string}
use libupsf.Text.Copy.{IsStored, store-IsStored}
use libupsf.Arrays.{clamp, fill, fill_until}
use libupsf.Arrays.Loops.{fill_until-eq-fill}
use libupsf.Printing.Common.{codes}
use libupsf.Tests.Samples.{flags_map}

-- A text that is longer than the buffer.
abbrev long : Bytes
long = replicate 70 b'x'

store-IsStored_example : IsStored (store long zero_string)
store-IsStored_example = store-IsStored long

abbrev names : List Bytes
names = replicate 20 (codes "gold")

fill_until-eq-fill_example :
    ((fill_until store 0 names (replicate 16 zero_string)).0
      ≡ fill store (clamp (length names)) names (replicate 16 zero_string))
    × ((fill_until store 0 names (replicate 16 zero_string)).1 ≡ clamp (length names))
fill_until-eq-fill_example = fill_until-eq-fill store names (replicate 16 zero_string) refl
