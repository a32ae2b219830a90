-- ===== src/Service/Members.antt =====
-- The six members of the `oneof` of Item, told from one another by the type of the item.
use libupsf.Prelude.{◌≡◌, refl, true, false, [], none, some, ◌⊎◌, inl, inr}
use libupsf.Service.{
  Item, Kind, has_shard, has_session_context, has_network_connection, has_user_plane,
  has_steering_function, has_service_gateway, shard_kind, session_context_kind,
  network_connection_kind, user_plane_kind, steering_function_kind, service_gateway_kind,
}
use libupsf.Service.Store.{item_name, has_type}

-- The item holds the member, or neither has its type nor unwraps to it.
abbrev pub Holds : {M : Type 0} → Kind M → Item → Type 0
Holds {M} kind i =
    ((m : M) × (i ≡ kind.wrap m)) ⊎ ((has_type kind.itemtype i ≡ false) × (kind.unwrap i ≡ none))

-- A member of the `oneof` that is told from the others by the item's type.
pub record IsMember {M : Type 0} (kind : Kind M) : Type 0 where
  pub wraps : (m : M) → kind.unwrap (kind.wrap m) ≡ some m
  pub typed : (m : M) → has_type kind.itemtype (kind.wrap m) ≡ true
  pub named : (m : M) → item_name (kind.wrap m) ≡ kind.name m
  pub default_name : kind.name kind.default ≡ []
  pub unset : kind.unwrap Item.unset ≡ none
  pub cases : (i : Item) → Holds kind i

pub shard-IsMember : IsMember shard_kind
unfolding has_type item_name has_shard
shard-IsMember = record {
  wraps = λ m. refl;
  typed = λ m. refl;
  named = λ m. refl;
  default_name = refl;
  unset = refl;
  cases = λ i. elim i as (λ j. Holds shard_kind j) [
    | Item.shard m ↦ inl (m, refl)
    | _ ↦ inr (refl, refl)
  ];
}

pub session_context-IsMember : IsMember session_context_kind
unfolding has_type item_name has_session_context
session_context-IsMember = record {
  wraps = λ m. refl;
  typed = λ m. refl;
  named = λ m. refl;
  default_name = refl;
  unset = refl;
  cases = λ i. elim i as (λ j. Holds session_context_kind j) [
    | Item.session_context m ↦ inl (m, refl)
    | _ ↦ inr (refl, refl)
  ];
}

pub network_connection-IsMember : IsMember network_connection_kind
unfolding has_type item_name has_network_connection
network_connection-IsMember = record {
  wraps = λ m. refl;
  typed = λ m. refl;
  named = λ m. refl;
  default_name = refl;
  unset = refl;
  cases = λ i. elim i as (λ j. Holds network_connection_kind j) [
    | Item.network_connection m ↦ inl (m, refl)
    | _ ↦ inr (refl, refl)
  ];
}

pub user_plane-IsMember : IsMember user_plane_kind
unfolding has_type item_name has_user_plane
user_plane-IsMember = record {
  wraps = λ m. refl;
  typed = λ m. refl;
  named = λ m. refl;
  default_name = refl;
  unset = refl;
  cases = λ i. elim i as (λ j. Holds user_plane_kind j) [
    | Item.service_gateway_user_plane m ↦ inl (m, refl)
    | _ ↦ inr (refl, refl)
  ];
}

pub steering_function-IsMember : IsMember steering_function_kind
unfolding has_type item_name has_steering_function
steering_function-IsMember = record {
  wraps = λ m. refl;
  typed = λ m. refl;
  named = λ m. refl;
  default_name = refl;
  unset = refl;
  cases = λ i. elim i as (λ j. Holds steering_function_kind j) [
    | Item.traffic_steering_function m ↦ inl (m, refl)
    | _ ↦ inr (refl, refl)
  ];
}

pub service_gateway-IsMember : IsMember service_gateway_kind
unfolding has_type item_name has_service_gateway
service_gateway-IsMember = record {
  wraps = λ m. refl;
  typed = λ m. refl;
  named = λ m. refl;
  default_name = refl;
  unset = refl;
  cases = λ i. elim i as (λ j. Holds service_gateway_kind j) [
    | Item.service_gateway m ↦ inl (m, refl)
    | _ ↦ inr (refl, refl)
  ];
}
