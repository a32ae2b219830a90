-- ===== src/CppExample/Steps.antt =====
-- The steps that the methods of UpsfCppExample share. `title` names the kind in a heading, and the
-- last text is that of the failure.
use libupsf.Prelude.{ℕ, suc, Bool, true, List, [], ◌∷◌, if◌then◌else◌}
use libupsf.Text.{Bytes}
use libupsf.Messages.{Timestamp}
use libupsf.Service.{Stub, Kind, ListMergeStrategy}
use libupsf.Client.{create, update, delete, read, read_all}
use libupsf.Printing.Common.{codes, texts}
use libupsf.CppExample.Lines.{Line}
use libupsf.CppExample.Action.{Action, pure, print, call, ◌>>=◌, ◌>>◌}

-- std::cout << "=== " << title << "(" << name << ") " << what
abbrev pub naming : Bytes → Bytes → Bytes → Line
naming title name what =
    Line.heading (texts (codes "=== " ∷ title ∷ codes "(" ∷ name ∷ codes ") " ∷ what ∷ []))

module _ (time : Timestamp → Bytes) {World : Type 0} {M : Type 0} (kind : Kind M) where
  -- for (i = 0; i < items.size(); i++) std::cout << ">>> " << i << ". " << ...
  unfoldable pub print_entries : ℕ → List M → Action World Unit
  print_entries i [] = pure tt
  print_entries i (m ∷ items) = do
    print time (Line.entry i (kind.wrap m))
    print_entries (suc i) items

module _ {World : Type 0} (stub : Stub World) {M : Type 0} (kind : Kind M) where
  unfoldable pub item_exists : Bytes → Action World Bool
  item_exists name = do result ← call (read stub kind name kind.default); pure result.1

module _ (time : Timestamp → Bytes) {World : Type 0} (stub : Stub World) {M : Type 0}
    (kind : Kind M) where
  unfoldable pub list_items : Bytes → Bytes → Action World Unit
  list_items title failure = do
    print time (Line.heading (texts (codes "=== " ∷ title ∷ codes " list" ∷ [])))
    result ← call (read_all stub kind [])
    if result.1 then print_entries time kind 0 result.0 else print time (Line.failure failure)

  unfoldable pub read_item : Bytes → Bytes → Bytes → Action World Unit
  read_item title failure name = do
    print time (naming title name (codes "read"))
    result ← call (read stub kind name kind.default)
    print time (if result.1 then Line.reply (kind.wrap result.0) else Line.failure failure)

  -- The part under if (!exists): the result says whether the method goes on.
  unfoldable pub create_new : Bytes → Bytes → Bytes → M → Action World Bool
  create_new title failure shown request = do
    print time (naming title shown (codes "create"))
    print time (Line.request (kind.wrap request))
    result ← call (create stub kind request)
    print time (if result.1 then Line.reply (kind.wrap result.0) else Line.failure failure)
    pure result.1

  -- `again` holds what is printed between the request and the call.
  unfoldable pub update_item :
      Bytes → Bytes → Bytes → ListMergeStrategy → M → Action World Unit → Action World Unit
  update_item title failure shown options request again = do
    print time (naming title shown (codes "update"))
    print time (Line.request (kind.wrap request))
    again
    result ← call (update stub kind request kind.default options)
    print time (if result.1 then Line.reply (kind.wrap result.0) else Line.failure failure)

module _ {World : Type 0} where
  unfoldable pub create_item :
      Action World Bool → Action World Bool → Action World Unit → Action World Unit
  create_item exists create_new update = do
    there ← exists
    made ← if there then pure true else create_new
    if made then update else pure tt

  unfoldable pub delete_item :
      (Timestamp → Bytes) → Stub World → Bytes → Bytes → Bytes → Action World Unit
  delete_item time stub title failure name = do
    print time (naming title name (codes "delete"))
    result ← call (delete stub name)
    print time (if result.1 then Line.deleted result.0 else Line.failure failure)
