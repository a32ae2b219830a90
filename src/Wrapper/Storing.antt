-- ===== src/Wrapper/Storing.antt =====
-- What a program in C sees of a server that keeps what it is given.
use libupsf.Prelude.{ℕ, suc, ◌≡◌, refl, true, false, List, [], ◌∷◌, ◌++◌, none, some, length, All}
use libupsf.Text.{Bytes, load}
use libupsf.Text.Copy.{load-store}
use libupsf.MapField.{same_bytes_refl}
use libupsf.Mapping.Gateway.{service_gateway_to_c, user_plane_to_c, steering_function_to_c}
use libupsf.Mapping.Session.{session_context_to_c}
use libupsf.RoundTrip.Gateway.{
  normalise_service_gateway, normalise_user_plane, normalise_steering_function,
  service_gateway_round_trip, user_plane_round_trip, steering_function_round_trip,
}
use libupsf.RoundTrip.Session.{normalise_session_context, session_context_round_trip}
use libupsf.RoundTrip.Stable.{
  service_gateway_stable, user_plane_stable, steering_function_stable, session_context_stable,
}
use libupsf.Service.{
  Item, Stream, Stub, has_service_gateway, has_user_plane, has_steering_function,
  has_session_context,
}
use libupsf.Client.Reading.{request, read_first}
use libupsf.Slots.{Slots, find}
use libupsf.Wrapper.{Exported, is_empty, filled, upsf_get}
use libupsf.Wrapper.Exports

-- The maps of a kind lose nothing of a structure that came from a message: `sent` is the message that
-- the structure of a message is mapped to.
pub record IsTransparent {C M : Type 0} (x : Exported C M) (sent : M → M) : Type 0 where
  pub round : (m : M) → x.to_proto (x.to_c m) x.kind.default ≡ some (sent m)
  pub stable : (m : M) → x.to_c (sent m) ≡ x.to_c m
  pub named : (m : M) → load (x.name (x.to_c m)) ≡ some (x.kind.name (sent m))
  pub wraps : (m : M) → x.kind.unwrap (x.kind.wrap m) ≡ some m

-- Service gateways, user planes, traffic steering functions and session contexts lose nothing on the
-- way from a structure that came from a message to a message and back, and are found under the name
-- in the structure.
pub lossless_kinds :
    IsTransparent Exports.service_gateway normalise_service_gateway
    × IsTransparent Exports.service_gateway_user_plane normalise_user_plane
    × IsTransparent Exports.traffic_steering_function normalise_steering_function
    × IsTransparent Exports.session_context normalise_session_context
unfolding service_gateway_to_c user_plane_to_c steering_function_to_c session_context_to_c
    has_service_gateway has_user_plane has_steering_function has_session_context
lossless_kinds = (
  record {
    round = service_gateway_round_trip;
    stable = service_gateway_stable;
    named = λ m. load-store m.name;
    wraps = λ m. refl;
  },
  record {
    round = user_plane_round_trip;
    stable = user_plane_stable;
    named = λ m. load-store m.name;
    wraps = λ m. refl;
  },
  record {
    round = steering_function_round_trip;
    stable = steering_function_stable;
    named = λ m. load-store m.name;
    wraps = λ m. refl;
  },
  record {
    round = session_context_round_trip;
    stable = session_context_stable;
    named = λ m. load-store m.name;
    wraps = λ m. refl;
  },
)

module _ {World : Type 0} (network : Bytes → Stub World) {C M : Type 0} (x : Exported C M)
    (sent : M → M) (t : IsTransparent x sent) (slots : Slots) (tid : ℕ) {addr : Bytes}
    (has_slot : find tid slots ≡ some addr) (buffer : C) (m : M) {w w' : World} where
  -- For a kind of item whose maps are transparent and a thread with a slot: if the server streams
  -- the item that a structure was sent as, first among those of its kind, and ends the stream
  -- well, a get with any buffer that has the name of this item gives the structure back, whatever
  -- else is streamed, provided that the name is not empty.
  pub get_stored :
      (s : Stream) (before after : List Item)
      → (network addr).read_v1 (request x.kind (x.kind.name (sent m) ∷ [])) w ≡ (w', s)
      → s.items ≡ before ++ x.kind.wrap (sent m) ∷ after
      → All (λ i. x.kind.unwrap i ≡ none) before
      → s.finish (suc (length before)) ≡ true
      → load (x.name buffer) ≡ some (x.kind.name (sent m))
      → is_empty (x.kind.name (sent m)) ≡ false
      → upsf_get network x slots tid (some buffer) w ≡ some (w', filled (x.to_c m))
  unfolding upsf_get
  get_stored s before after streamed items others ended named not_empty =
      let got =
        read_first (network addr) x.kind (x.kind.name (sent m)) x.kind.default w s streamed before
          after (x.kind.wrap (sent m)) (sent m) items others (t.wraps (sent m)) in
      rw (
        has_slot,
        upsf_get,
        named,
        got,
        ended,
        same_bytes_refl (x.kind.name (sent m)),
        not_empty,
        t.stable m,
      )
