-- ===== src/CppExample/Lines.antt =====
-- The lines that UpsfCppExample prints, and the text of each. The flushing of streams
-- and the destination of a log are left out.
use libupsf.Prelude.{ℕ, [], ◌∷◌, ◌++◌, Option, some, pos, ◌>>=◌}
use libupsf.Text.{Bytes}
use libupsf.Messages.{Timestamp}
use libupsf.Service.{Item}
use libupsf.Slots.{show_int}
use libupsf.Printing.Common.{codes, texts}
use libupsf.Printing.Connection.{print_network_connection}
use libupsf.Printing.Gateway.{print_service_gateway, print_user_plane, print_steering_function}
use libupsf.Printing.Shard.{print_shard}
use libupsf.Printing.Session.{print_session_context}

pub data Line : Type 0 where
  -- std::cout << ... << std::endl of a text
  heading : Bytes → Line
  -- LOG(ERROR) << ...
  failure : Bytes → Line
  -- "<<< request: ", ">>> reply: " and no intro, with the stream of a message
  request : Item → Line
  reply : Item → Line
  plain : Item → Line
  -- ">>> i. " with the stream of a message
  entry : ℕ → Item → Line
  -- ">>> reply: " with a name
  deleted : Bytes → Line

-- `time` is TimeUtil::ToString of protobuf. No line shows an item without a member.
module _ (time : Timestamp → Bytes) where
  unfoldable pub item_text : Item → Option Bytes
  unfolding print_shard print_session_context print_network_connection print_user_plane
      print_steering_function print_service_gateway
  item_text Item.unset = some []
  item_text (Item.shard m) = print_shard time m
  item_text (Item.session_context m) = print_session_context time m
  item_text (Item.network_connection m) = print_network_connection time m
  item_text (Item.service_gateway_user_plane m) = print_user_plane time m
  item_text (Item.traffic_steering_function m) = print_steering_function time m
  item_text (Item.service_gateway m) = print_service_gateway time m

  -- The text of a line, without the end of line; it is undefined where the text of an item is.
  unfoldable pub line_text : Line → Option Bytes
  unfolding item_text texts
  line_text (Line.heading s) = some s
  line_text (Line.failure s) = some s
  line_text (Line.request item) = do t ← item_text item; some (codes "<<< request: " ++ t)
  line_text (Line.reply item) = do t ← item_text item; some (codes ">>> reply: " ++ t)
  line_text (Line.plain item) = item_text item
  line_text (Line.entry i item) = do
    t ← item_text item
    some (texts (codes ">>> " ∷ show_int (pos i) ∷ codes ". " ∷ t ∷ []))
  line_text (Line.deleted name) = some (texts (codes ">>> reply: " ∷ name ∷ []))
