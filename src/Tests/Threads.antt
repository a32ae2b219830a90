-- ===== src/Tests/Threads.antt =====
-- Slots of threads, and what a subscription delivers.
use libupsf.Prelude.{
  ◌==◌, ℕ, ◌≡◌, ◌≢◌, ◌⊎◌, suc, inl, inr, refl, Bool, true, false, List, [], ◌∷◌, none, some, pos,
  negsuc, if◌then◌else◌,
}
use libupsf.Text.{Bytes}
use libupsf.Slots.{Slots, find, address, upsf_open, upsf_close, upsf_exists}
use libupsf.Slots.Threads.{opened, upsf_open_lem, upsf_close_lem}
use libupsf.Service.{Item}
use libupsf.Subscriber.{
  Subscriber, Callbacks, all_items, subscribe_request, notify, notify_all, upsf_subscribe,
}
use libupsf.Subscriber.Serving.{delivered, failed, upsf_subscribe_lem, subscribe_request_restricted}
use libupsf.Subscriber.Objects.{
  Derived, set_watch, get_watch, notify_item, notify_items, serve_object, all_notified,
  serve_object_lem,
}
use libupsf.Printing.Common.{codes}
use libupsf.Tests.Samples.{stored, shard}

-- Thread 7 has a slot.
abbrev slots : Slots
slots = (7, codes "localhost:50051") ∷ []

abbrev seven : ℕ
seven = 7

abbrev eight : ℕ
eight = 8

abbrev host : Bytes
host = codes "10.0.0.9"

address_run : address host (pos 50051) ≡ codes "10.0.0.9:50051"
unfolding address
address_run = refl

-- A second open of the thread keeps the first address.
open_run : upsf_open host (pos 50051) 7 slots ≡ (slots, pos 0)
unfolding upsf_open
open_run = refl

upsf_open_lem_example :
    ((upsf_open host (pos 50051) 8 slots).1 ≡ pos 0)
    × (find 7 (upsf_open host (pos 50051) 8 slots).0 ≡ (
        if eight == 7
        then some (opened (find 8 slots) (address host (pos 50051)))
        else find 7 slots))
upsf_open_lem_example = upsf_open_lem host (pos 50051) 8 7 slots

upsf_close_lem_example :
    (((upsf_exists 7 slots ≡ pos 1) × ((upsf_close 7 slots).1 ≡ pos 0))
      ⊎ ((upsf_exists 7 slots ≡ pos 0) × (upsf_close 7 slots ≡ (slots, negsuc 0))))
    × (find 8 (upsf_close 7 slots).0 ≡ (if seven == 8 then none else find 8 slots))
upsf_close_lem_example = upsf_close_lem 7 8 slots

-- Only shards are called back for.
abbrev shards_only : Callbacks
shards_only = record {
  shard_cb = true;
  session_context_cb = false;
  network_connection_cb = false;
  service_gateway_user_plane_cb = false;
  traffic_steering_function_cb = false;
  service_gateway_cb = false;
}

abbrev rounds : List (List Item × Bool)
rounds = (stored, true) ∷ (Item.shard shard ∷ [], false) ∷ (stored, true) ∷ []

upsf_subscribe_lem_example :
    (upsf_subscribe shards_only rounds ≡ (
      notify_all (notify shards_only) (delivered rounds),
      (if failed rounds then some (negsuc 0) else none),
    ))
    × ((upsf_subscribe shards_only rounds).1 ≢ some (pos 0))
upsf_subscribe_lem_example = upsf_subscribe_lem shards_only rounds

abbrev for_parent : Subscriber
for_parent = record (all_items false) { parents = codes "sgup-1" ∷ [] }

for_parent-parents : for_parent.parents ≢ []
for_parent-parents e = cc

subscribe_request_restricted_example : subscribe_request for_parent ≡ none
subscribe_request_restricted_example =
    subscribe_request_restricted for_parent (inl for_parent-parents)

-- A class that counts the shards, and unsets `watch` at the first.
abbrev first_shard : Derived (Subscriber × ℕ)
first_shard = record {
  base = λ s. s.0;
  shard = λ m s. (set_watch false s.0, suc s.1);
  session_context = λ m s. s;
  network_connection = λ m s. s;
  service_gateway_user_plane = λ m s. s;
  traffic_steering_function = λ m s. s;
  service_gateway = λ m s. s;
}

abbrev watching : Subscriber × ℕ
watching = (all_items true, 0)

abbrev quiet_rounds : List (List Item × Bool)
quiet_rounds = ([], true) ∷ (Item.unset ∷ [], true) ∷ []

serve_object_lem_example :
    serve_object first_shard
      (([], true) ∷ (Item.unset ∷ [], true) ∷ (stored, true) ∷ rounds)
      watching
    ≡ (notify_items first_shard stored (all_notified first_shard quiet_rounds watching), some true)
unfolding notify_items notify_item get_watch set_watch all_items
serve_object_lem_example =
    serve_object_lem first_shard quiet_rounds rounds stored true watching
      (refl, refl, (refl, refl, tt)) (inr refl)
