-- ===== src/CExample/Steps.antt =====
-- The functions list_x, dump_x and test_x of the example, for any kind of item. An action has no
-- result where the program does something undefined; the lines that it prints are kept.
use libupsf.Prelude.{
  ℕ, zero, suc, List, [], ◌∷◌, ◌++◌, Option, none, some, ℤ, pos, negsuc, take, drop,
}
use libupsf.Text.{Bytes, read_string}
use libupsf.Service.{Stub}
use libupsf.Slots.{Slots, show_int}
use libupsf.Printing.Common.{codes, texts}
use libupsf.Printing.Dump.{upsf_dump}
use libupsf.Wrapper.{
  Exported, Returned, null, filled, upsf_create, upsf_update, upsf_get, upsf_delete, upsf_list,
}

abbrev pub Action : Type 0 → Type 0 → Type 0
Action World A = World → Option (World × List Bytes × A)

module _ {World : Type 0} where
  abbrev pub pure : {A : Type 0} → A → Action World A
  pure a w = some (w, [], a)

  -- A line on stderr, undefined where its text is.
  abbrev pub print : Option Bytes → Action World Unit
  print none w = none
  print (some line) w = some (w, line ∷ [], tt)

  -- A call of the library that may read something undefined.
  abbrev pub call : {A : Type 0} → (World → Option (World × A)) → Action World A
  call f w = elim (f w) [ none ↦ none | some r ↦ some (r.0, [], r.1) ]

  -- What is run behind an action, with the lines of that action in front.
  abbrev pub behind :
      {A B : Type 0}
      → (A → Action World B)
      → Option (World × List Bytes × A)
      → Option (World × List Bytes × B)
  behind f none = none
  behind f (some (w, lines, a)) = elim (f a w) [
    | none ↦ none
    | some (w', more, b) ↦ some (w', lines ++ more, b)
  ]

  infixl 5 ◌>>=◌ ◌>>◌
  abbrev pub ◌>>=◌ : {A B : Type 0} → Action World A → (A → Action World B) → Action World B
  ◌>>=◌ m f w = behind f (m w)

  abbrev pub ◌>>◌ : {A B : Type 0} → Action World A → Action World B → Action World B
  m >> k = m >>= λ _. k

-- printf's %s for a pointer that upsf_dump returned into an array, of which the first `n` bytes were
-- passed: the bytes up to the first zero byte, with the array as it is then.
abbrev pub shown : ℕ → Bytes → Option (Returned Bytes) → Option (Bytes × Bytes)
shown n buf none = none
shown n buf (some null) = none
shown n buf (some (filled str)) = elim (read_string (str ++ drop n buf)) [
  | none ↦ none
  | some text ↦ some (str ++ drop n buf, text)
]

module _ {C M : Type 0} (x : Exported C M) (text_of : M → Option Bytes) where
  -- upsf_dump_x(buf, n, item), printed.
  unfoldable pub dump_sized : ℕ → Bytes → C → Option (Bytes × Bytes)
  dump_sized n buf item = shown n buf (upsf_dump x text_of (some (take n buf)) (some item))

  -- char buf[1024]; buflen = sizeof(buf) - 1
  unfoldable pub dump_text : Bytes → C → Option (Bytes × Bytes)
  unfolding dump_sized
  dump_text buf item = dump_sized 1023 buf item

  abbrev line : Bytes → Option (Bytes × Bytes) → Option Bytes
  line intro none = none
  line intro (some (buf, text)) = some (texts (intro ∷ codes " " ∷ text ∷ []))

  unfoldable pub dump_item : {World : Type 0} → Bytes → Bytes → C → Action World Unit
  dump_item buf intro item = print (line intro (dump_text buf item))

  -- for (i = 0; i < n_elems; i++) fprintf(stderr, "LIST x[%d]: %s\n", i, upsf_dump_x(..., &items[i]));
  -- a read behind the end of the array is undefined.
  unfoldable pub list_loop : {World : Type 0} → Bytes → ℕ → ℕ → Bytes → List C → Action World Unit
  list_loop what zero i buf items = pure tt
  list_loop what (suc n) i buf [] = λ w. none
  list_loop what (suc n) i buf (item ∷ items) = elim (dump_text buf item) [
    | none ↦ λ w. none
    | some (buf', text) ↦ do
      print (
          some
            (texts (codes "LIST " ∷ what ∷ codes "[" ∷ show_int (pos i) ∷ codes "]: " ∷ text ∷ [])))
      list_loop what n (suc i) buf' items
  ]

module _ {World : Type 0} (network : Bytes → Stub World) (slots : Slots) (tid : ℕ) {C M : Type 0}
    (x : Exported C M) (text_of : M → Option Bytes) (buf : Bytes) (items : List C) where
  -- What is done with the array and the result of the list call.
  unfoldable pub print_listed : Bytes → Option (List C) → ℤ → Action World ℤ
  print_listed what none n = λ w. none
  print_listed what (some elems) (negsuc n) = pure (negsuc 0)
  print_listed what (some elems) (pos n) = list_loop x text_of what n 0 buf elems >> pure (pos 0)

  -- The array `items` has 64 elements; the call is told so, and its result may be larger.
  unfoldable pub list_items : Bytes → Action World ℤ
  list_items what w =
      let r = upsf_list network x slots tid (some items) w in print_listed what r.1 r.2 r.0

  -- item = *upsf_get_x(&item): on a null pointer the item stays. The example's test whether the
  -- pointer is below 0 never holds.
  abbrev got : C → Returned C → C
  got item null = item
  got item (filled c) = c

  -- `first` and `second` are what the function writes into the item before it is created, and before it
  -- is updated; `named` is the name that it writes before it is read.
  unfoldable pub test_item : Bytes → Bytes → (C → C) → (C → C) → (C → C) → Action World ℤ
  test_item what spoken first second named = do
    list_items what
    created ← call (upsf_create network x slots tid (some (first x.zero)))
    elim created [
      | null ↦ pure (negsuc 0)
      | filled item ↦ do
        dump_item x text_of buf (texts (codes "CREATE " ∷ spoken ∷ codes ":" ∷ [])) item
        updated ← call (upsf_update network x slots tid (some (second item)))
        elim updated [
          | null ↦ pure (negsuc 0)
          | filled item' ↦ do
            dump_item x text_of buf (texts (codes "UPDATE " ∷ spoken ∷ codes ":" ∷ [])) item'
            read ← call (upsf_get network x slots tid (some (named item')))
            dump_item x text_of buf (texts (codes "GET " ∷ spoken ∷ codes ":" ∷ []))
                (got (named item') read)
            list_items what
            deleted ← call (upsf_delete network x slots tid (some (got (named item') read)))
            elim deleted [
              | negsuc n ↦ pure (negsuc 0)
              | pos n ↦ do
                dump_item x text_of buf (texts (codes "DELETE " ∷ spoken ∷ codes ":" ∷ []))
                    (got (named item') read)
                list_items what
                pure (pos 0)
            ]
        ]
    ]
