-- ===== src/CExample/Undefined.antt =====
-- Where the example does something undefined.
use libupsf.Prelude.{
  ℕ, zero, suc, ◌+◌, ◌-◌, ◌<◌, ◌≡◌, refl, ap, ◌∙◌, true, List, [], ◌∷◌, ◌++◌, Option, none, some,
  length, take, drop, replicate, map, length-take, length-replicate, arith, inl, inr, Option-cases,
}
use libupsf.Text.{Bytes, read_string}
use libupsf.Service.{Stub}
use libupsf.Slots.{Slots, find}
use libupsf.Client.{read_all}
use libupsf.Wrapper.{Exported}
use libupsf.Wrapper.Lists.{upsf_list_lem}
use libupsf.Printing.Plain.{is_plain, IsPlain, is_plain-append}
use libupsf.Printing.Dump.{upsf_dump, upsf_dump_lem, text_plain}
use libupsf.CExample.Steps.{shown, dump_sized, dump_text, list_loop, print_listed, list_items}

is_plain-read : (s : Bytes) → is_plain s ≡ true → read_string s ≡ none
unfolding is_plain read_string
is_plain-read [] h = refl
is_plain-read (c ∷ s) h = ground (arith, is_plain-read s)

is_plain-take : (n : ℕ) (s : Bytes) → is_plain s ≡ true → is_plain (take n s) ≡ true
unfolding is_plain
is_plain-take zero s h = refl
is_plain-take (suc n) [] h = refl
is_plain-take (suc n) (c ∷ s) h = ground (arith, is_plain-take n s)

is_plain-drop : (n : ℕ) (s : Bytes) → is_plain s ≡ true → is_plain (drop n s) ≡ true
unfolding is_plain
is_plain-drop zero s h = h
is_plain-drop (suc n) [] h = refl
is_plain-drop (suc n) (c ∷ s) h = ground (arith, is_plain-drop n s)

module _ {C M : Type 0} (x : Exported C M) (text_of : M → Option Bytes)
    (plain : (m : M) → IsPlain (text_of m)) where
  written-plain :
      (n : ℕ) (text : Bytes) (c : ℕ) (buf : Bytes)
      → is_plain text ≡ true
      → is_plain (c ∷ buf) ≡ true
      → is_plain (
          (take (length (c ∷ take n buf)) text ++ drop (length text) (c ∷ take n buf))
          ++ drop (suc n) (c ∷ buf))
        ≡ true
  written-plain n text c buf h h' =
      let front = is_plain-take (length (c ∷ take n buf)) text h in
      let rest =
        is_plain-drop (length text) (c ∷ take n buf) (is_plain-take (suc n) (c ∷ buf) h') in
      let behind_it = is_plain-drop (suc n) (c ∷ buf) h' in
      rw (is_plain-append, is_plain-append, front, rest, behind_it) refl

  dump_sized_unterminated :
      (n : ℕ) (buf : Bytes) (item : C)
      → is_plain buf ≡ true
      → dump_sized x text_of n buf item ≡ none
  unfolding dump_sized upsf_dump read_string
  dump_sized_unterminated zero buf item h = refl
  dump_sized_unterminated (suc n) [] item h = refl
  dump_sized_unterminated (suc n) (c ∷ buf) item h =
      elim (Option-cases (x.to_proto item x.kind.default)) [
        | inl e ↦ rw (dump_sized, upsf_dump, e) refl
        | inr (m, made) ↦ elim (Option-cases (text_of m)) [
          | inl e ↦ rw (dump_sized, upsf_dump, made, e) refl
          | inr (text, printed) ↦
              let written = upsf_dump_lem x text_of plain c (take n buf) text item m made printed in
              let silent =
                is_plain-read _
                  (written-plain n text c buf (text_plain x text_of plain m text printed) h) in
              ap (shown (suc n) (c ∷ buf)) written ∙ rw silent refl
        ]
      ]

  -- Where the array that an item is dumped into holds no zero byte beforehand, printing what the dump
  -- left in it is undefined, whatever item is dumped, if no text of an item has a zero byte.
  pub dump_text_unterminated :
      (buf : Bytes) (item : C) → is_plain buf ≡ true → dump_text x text_of buf item ≡ none
  unfolding dump_text
  dump_text_unterminated buf item h = dump_sized_unterminated 1023 buf item h

length-append : {A : Type 0} (xs ys : List A) → length (xs ++ ys) ≡ length xs + length ys
length-append [] ys = omega arith
length-append (x ∷ xs) ys = omega (arith, length-append xs ys)

length-map : {A B : Type 0} (f : A → B) (xs : List A) → length (map f xs) ≡ length xs
length-map f [] = refl
length-map f (x ∷ xs) = omega (arith, length-map f xs)

module _ {C M : Type 0} (x : Exported C M) (text_of : M → Option Bytes) where
  list_loop_overrun :
      {World : Type 0} (what : Bytes) (n i : ℕ) (buf : Bytes) (items : List C) (w : World)
      → length items < n
      → list_loop x text_of what n i buf items w ≡ none
  unfolding list_loop
  list_loop_overrun what zero i buf items w h = absurd (omega arith)
  list_loop_overrun what (suc n) i buf [] w h = refl
  list_loop_overrun what (suc n) i buf (item ∷ items) w h =
      elim (Option-cases (dump_text x text_of buf item)) [
        | inl e ↦ rw (list_loop, e) refl
        | inr ((buf', text), e) ↦
            rw (list_loop, e, list_loop_overrun what n (suc i) buf' items w (omega arith)) refl
      ]

module _ {World : Type 0} (network : Bytes → Stub World) {C M : Type 0} (x : Exported C M)
    (text_of : M → Option Bytes) where
  -- For a thread with a slot, printing a list is undefined where the server has more items of the
  -- kind than the array has elements, and fewer than 2 ^ 31: the loop runs to the number of all
  -- items.
  pub list_items_overrun :
      (slots : Slots) (tid : ℕ) (buf : Bytes) (items : List C) (what : Bytes) (w : World)
      {w' : World} {addr : Bytes} (found : List M)
      → find tid slots ≡ some addr
      → read_all (network addr) x.kind [] w ≡ (w', found, true)
      → length items < length found
      → length found < 2147483648
      → list_items network slots tid x text_of buf items what w ≡ none
  unfolding list_items print_listed
  list_items_overrun slots tid buf items what w {w'} found has_slot answer more few =
      let n = length items in
      let size : length (map x.to_c (take n found) ++ replicate (n - length found) x.zero) ≡ n =
        omega (
          arith,
          length-append (map x.to_c (take n found)) (replicate (n - length found) x.zero),
          length-map x.to_c (take n found),
          length-take n found,
          length-replicate (n - length found) x.zero,
        ) in
      let overrun =
        list_loop_overrun x text_of what (length found) 0 buf
          (map x.to_c (take n found) ++ replicate (n - length found) x.zero) w'
          (omega (arith, size, more)) in
      rw (upsf_list_lem network x slots tid w found items few has_slot answer, overrun) refl
