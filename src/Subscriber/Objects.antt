-- ===== src/Subscriber/Objects.antt =====
-- Subscribers as objects: the constructors of UpsfSubscriber, and a class derived from it, whose notify
-- functions may change the object, its `watch` included.
use libupsf.Prelude.{
  ◌≡◌, refl, Bool, true, false, List, [], ◌∷◌, ◌++◌, Option, none, some, ℤ, ◌⊎◌, inl, inr,
  if◌then◌else◌,
}
use libupsf.Text.{Bytes}
use libupsf.Messages.{
  Shard, SessionContext, NetworkConnection, ServiceGatewayUserPlane, TrafficSteeringFunction,
  ServiceGateway,
}
use libupsf.Service.{Item, ItemType}
use libupsf.Subscriber.{Subscriber}

unfoldable pub of_itemtypes : List ItemType → Bool → Subscriber
of_itemtypes itemtypes watch = record {
  itemtypes = itemtypes;
  derivedstates = [];
  parents = [];
  names = [];
  watch = watch;
}

unfoldable pub of_derivedstates : List ℤ → Bool → Subscriber
of_derivedstates derivedstates watch = record {
  itemtypes = [];
  derivedstates = derivedstates;
  parents = [];
  names = [];
  watch = watch;
}

unfoldable pub of_all : List ItemType → List ℤ → List Bytes → List Bytes → Bool → Subscriber
of_all itemtypes derivedstates parents names watch = record {
  itemtypes = itemtypes;
  derivedstates = derivedstates;
  parents = parents;
  names = names;
  watch = watch;
}

unfoldable pub get_watch : Subscriber → Bool
get_watch s = s.watch

unfoldable pub set_watch : Bool → Subscriber → Subscriber
set_watch watch s = record s { watch = watch }

-- A derived class: its objects have a base object and what else the class adds, and its six notify
-- functions change them.
pub record Derived (S : Type 0) : Type 0 where
  pub base : S → Subscriber
  pub shard : Shard → S → S
  pub session_context : SessionContext → S → S
  pub network_connection : NetworkConnection → S → S
  pub service_gateway_user_plane : ServiceGatewayUserPlane → S → S
  pub traffic_steering_function : TrafficSteeringFunction → S → S
  pub service_gateway : ServiceGateway → S → S

module _ {S : Type 0} (class : Derived S) where
  unfoldable pub notify_item : Item → S → S
  notify_item Item.unset s = s
  notify_item (Item.shard m) s = class.shard m s
  notify_item (Item.session_context m) s = class.session_context m s
  notify_item (Item.network_connection m) s = class.network_connection m s
  notify_item (Item.service_gateway_user_plane m) s = class.service_gateway_user_plane m s
  notify_item (Item.traffic_steering_function m) s = class.traffic_steering_function m s
  notify_item (Item.service_gateway m) s = class.service_gateway m s

  unfoldable pub notify_items : List Item → S → S
  notify_items [] s = s
  notify_items (item ∷ items) s = notify_items items (notify_item item s)

  -- As `serve` of Subscriber; `watch` is read from the object after each round.
  unfoldable pub serve_object : List (List Item × Bool) → S → S × Option Bool
  serve_object [] s = (s, none)
  serve_object ((items, ok) ∷ rounds) s =
      let s' = notify_items items s in
      let rest = serve_object rounds s' in
      if ok then (if get_watch (class.base s') then rest else (s', some true)) else (s', some false)

  -- Every round ends well, and leaves the object watching.
  abbrev pub GoesOn : List (List Item × Bool) → S → Type 0
  GoesOn [] s = Unit
  GoesOn ((items, ok) ∷ rounds) s =
      (ok ≡ true)
      × (get_watch (class.base (notify_items items s)) ≡ true)
      × GoesOn rounds (notify_items items s)

  abbrev pub all_notified : List (List Item × Bool) → S → S
  all_notified [] s = s
  all_notified ((items, ok) ∷ rounds) s = all_notified rounds (notify_items items s)

  -- A subscriber is served round after round while rounds end well and it watches. Its call returns true
  -- after the first round that ends well with `watch` unset, for which a notify function may have
  -- unset it, and false after the first round that ends badly; in both cases all items up to there
  -- have been notified, and none behind.
  pub serve_object_lem :
      (before after : List (List Item × Bool)) (items : List Item) (ok : Bool) (s : S)
      → GoesOn before s
      → (ok ≡ false) ⊎ (get_watch (class.base (notify_items items (all_notified before s))) ≡ false)
      → serve_object (before ++ (items, ok) ∷ after) s
        ≡ (notify_items items (all_notified before s), some ok)
  unfolding serve_object
  serve_object_lem [] after items ok s h (inl e) = rw e refl
  serve_object_lem [] after items false s h (inr e) = refl
  serve_object_lem [] after items true s h (inr e) = rw e refl
  serve_object_lem ((items', ok') ∷ before) after items ok s (h, h', h'') e =
      rw (h, h') (serve_object_lem before after items ok (notify_items items' s) h'' e)

  -- While rounds end well and the subscriber watches, its call does not return.
  pub serve_object_waits :
      (rounds : List (List Item × Bool)) (s : S)
      → GoesOn rounds s
      → serve_object rounds s ≡ (all_notified rounds s, none)
  unfolding serve_object
  serve_object_waits [] s h = refl
  serve_object_waits ((items, ok) ∷ rounds) s (h, h', h'') =
      rw (h, h') (serve_object_waits rounds (notify_items items s) h'')
