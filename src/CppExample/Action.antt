-- ===== src/CppExample/Action.antt =====
-- What a method of UpsfCppExample is: it calls the server, prints, and returns. It has no result where
-- what it prints is undefined; the texts that it prints are kept.
use libupsf.Prelude.{List, [], ◌∷◌, ◌++◌, Option, none, some}
use libupsf.Text.{Bytes}
use libupsf.Messages.{Timestamp}
use libupsf.CppExample.Lines.{Line, line_text}

abbrev pub Action : Type 0 → Type 0 → Type 0
Action World A = World → Option (World × List Bytes × A)

module _ {World : Type 0} where
  abbrev pub pure : {A : Type 0} → A → Action World A
  pure a w = some (w, [], a)

  abbrev printed : Option Bytes → Action World Unit
  printed none w = none
  printed (some text) w = some (w, text ∷ [], tt)

  -- `time` is TimeUtil::ToString of protobuf.
  abbrev pub print : (Timestamp → Bytes) → Line → Action World Unit
  print time line w = printed (line_text time line) w

  -- A call of the client.
  abbrev pub call : {A B : Type 0} → (World → World × A × B) → Action World (A × B)
  call f w = let r = f w in some (r.0, [], (r.1, r.2))

  abbrev pub put_in_front :
      {B : Type 0} → List Bytes → Option (World × List Bytes × B) → Option (World × List Bytes × B)
  put_in_front texts none = none
  put_in_front texts (some (w, more, b)) = some (w, texts ++ more, b)

  -- What is run behind an action, with the texts of that action in front.
  abbrev pub behind :
      {A B : Type 0}
      → (A → Action World B)
      → Option (World × List Bytes × A)
      → Option (World × List Bytes × B)
  behind f none = none
  behind f (some (w, texts, a)) = put_in_front texts (f a w)

  infixl 5 ◌>>=◌ ◌>>◌
  abbrev pub ◌>>=◌ : {A B : Type 0} → Action World A → (A → Action World B) → Action World B
  ◌>>=◌ m f w = behind f (m w)

  abbrev pub ◌>>◌ : {A B : Type 0} → Action World A → Action World B → Action World B
  m >> k = m >>= λ _. k
