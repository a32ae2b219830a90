-- ===== src/Wrapper/Safety.antt =====
-- The calls of the C interface read no structure that is not readable, and fill only readable ones.
use libupsf.Prelude.{
  ℕ, ◌≡◌, refl, Bool, true, false, Option, some, inl, inr, Option-cases, if◌then◌else◌,
}
use libupsf.Text.{Bytes}
use libupsf.MapField.{MapField}
use libupsf.Structs.{
  UpsfServiceGateway, UpsfUserPlane, UpsfSteeringFunction, UpsfNetworkConnection, UpsfShard,
  UpsfSessionContext,
}
use libupsf.Service.{Stub, ListMergeStrategy}
use libupsf.Client.{create, update, read}
use libupsf.Slots.{Slots, find}
use libupsf.Wrapper.{
  Exported, Returned, is_empty, null, filled, upsf_create, upsf_update, upsf_get, upsf_delete,
}
use libupsf.Wrapper.Exports
use libupsf.WellFormed.Arrays.{IsDefined, IsTerminated}
use libupsf.WellFormed.Gateway.{
  IsReadableGateway, IsReadableUserPlane, IsReadableSteering,
  service_gateway_to_c-IsReadableGateway, service_gateway_to_proto-IsDefined,
  user_plane_to_c-IsReadableUserPlane, user_plane_to_proto-IsDefined,
  steering_function_to_c-IsReadableSteering, steering_function_to_proto-IsDefined,
}
use libupsf.WellFormed.Connection.{
  IsReadableConnection, network_connection_to_c-IsReadableConnection,
  network_connection_to_proto-IsDefined,
}
use libupsf.WellFormed.Session.{
  IsReadableSession, session_context_to_c-IsReadableSession, session_context_to_proto-IsDefined,
}
use libupsf.WellFormed.Shard.{IsReadableShard, shard_to_c-IsReadableShard, shard_to_proto-IsDefined}

-- The readable structures of a kind: the maps make them, and read nothing undefined in them.
pub record IsSafe {C M : Type 0} (x : Exported C M) (R : C → Type 0) : Type 0 where
  pub makes : (m : M) → R (x.to_c m)
  pub reads : (c : C) (to : M) → R c → IsDefined (x.to_proto c to)
  pub named : (c : C) → R c → IsTerminated (x.name c)

-- What a call may have written into its buffer.
abbrev pub Leaves : {C : Type 0} → (C → Type 0) → Returned C → Type 0
Leaves R null = Unit
Leaves R (filled c) = R c

-- A call is defined, and what it leaves in its buffer is readable.
abbrev pub IsSafeCall : {World C : Type 0} → (C → Type 0) → Option (World × Returned C) → Type 0
IsSafeCall {World} {C} R call = (r : World × Returned C) × (call ≡ some r) × Leaves R r.1

Leaves-if :
    {C : Type 0} (R : C → Type 0) (b : Bool) (r : Returned C)
    → Leaves R r
    → Leaves R (if b then r else null)
Leaves-if R true r h = h
Leaves-if R false r h = tt

Leaves-ite :
    {C : Type 0} (R : C → Type 0) (b : Bool) (r : Returned C)
    → Leaves R r
    → Leaves R (if b then null else r)
Leaves-ite R true r h = tt
Leaves-ite R false r h = h

-- On the buffer each of the four calls is defined, and what it leaves in the buffer is readable.
abbrev pub AreSafe :
    {World : Type 0} (network : Bytes → Stub World) {C M : Type 0} (x : Exported C M)
    (R : C → Type 0) (slots : Slots) (tid : ℕ) (w : World)
    → C
    → Type 0
AreSafe network x R slots tid w c =
    IsSafeCall R (upsf_create network x slots tid (some c) w)
    × IsSafeCall R (upsf_update network x slots tid (some c) w)
    × IsSafeCall R (upsf_get network x slots tid (some c) w)
    × IsDefined (upsf_delete network x slots tid (some c) w)

module _ {World : Type 0} (network : Bytes → Stub World) {C M : Type 0} (x : Exported C M)
    (R : C → Type 0) (safe : IsSafe x R) (slots : Slots) (tid : ℕ) (w : World) where
  create_safe : (c : C) → R c → IsSafeCall R (upsf_create network x slots tid (some c) w)
  unfolding upsf_create
  create_safe c h = elim (Option-cases (find tid slots)) [
    | inl e ↦ rw (e, upsf_create) (_, refl, tt)
    | inr (addr, e) ↦
        let (m, made) = safe.reads c x.kind.default h in
        let r = create (network addr) x.kind m w in
        rw (e, upsf_create, made) (_, refl, Leaves-if R r.2 (filled (x.to_c r.1)) (safe.makes r.1))
  ]

  update_safe : (c : C) → R c → IsSafeCall R (upsf_update network x slots tid (some c) w)
  unfolding upsf_update
  update_safe c h = elim (Option-cases (find tid slots)) [
    | inl e ↦ rw (e, upsf_update) (_, refl, tt)
    | inr (addr, e) ↦
        let (m, made) = safe.reads c x.kind.default h in
        let r = update (network addr) x.kind m x.kind.default ListMergeStrategy.union w in
        rw (e, upsf_update, made) (_, refl, Leaves-if R r.2 (filled (x.to_c r.1)) (safe.makes r.1))
  ]

  get_safe : (c : C) → R c → IsSafeCall R (upsf_get network x slots tid (some c) w)
  unfolding upsf_get
  get_safe c h = elim (Option-cases (find tid slots)) [
    | inl e ↦ rw (e, upsf_get) (_, refl, tt)
    | inr (addr, e) ↦
        let (name, named) = safe.named c h in
        let r = read (network addr) x.kind name x.kind.default w in
        let copied = filled (x.to_c r.1) in
        let empty = is_empty (x.kind.name r.1) in
        rw (e, upsf_get, named)
          (
            _,
            refl,
            Leaves-if R r.2 (if empty then null else copied)
                (Leaves-ite R empty copied (safe.makes r.1)),
          )
  ]

  delete_safe : (c : C) → R c → IsDefined (upsf_delete network x slots tid (some c) w)
  unfolding upsf_delete
  delete_safe c h = elim (Option-cases (find tid slots)) [
    | inl e ↦ rw (e, upsf_delete) (_, refl)
    | inr (addr, e) ↦ let (name, named) = safe.named c h in rw (e, upsf_delete, named) (_, refl)
  ]

  pub all_calls_safe : (c : C) → R c → AreSafe network x R slots tid w c
  all_calls_safe c h = (create_safe c h, update_safe c h, get_safe c h, delete_safe c h)

-- For each of the six kinds of items, the map to the structure makes a readable structure, the map
-- back reads nothing undefined in a readable structure, and neither does a read of its name.
pub all_kinds_safe :
    ⦃flags : MapField Bool⦄ ⦃texts : MapField Bytes⦄
    → IsSafe Exports.service_gateway IsReadableGateway
      × IsSafe Exports.service_gateway_user_plane IsReadableUserPlane
      × IsSafe Exports.traffic_steering_function IsReadableSteering
      × IsSafe Exports.network_connection IsReadableConnection
      × IsSafe Exports.shard IsReadableShard
      × IsSafe Exports.session_context IsReadableSession
all_kinds_safe = (
  record {
    makes = service_gateway_to_c-IsReadableGateway;
    reads = service_gateway_to_proto-IsDefined;
    named = λ c h. h.name;
  },
  record {
    makes = user_plane_to_c-IsReadableUserPlane;
    reads = user_plane_to_proto-IsDefined;
    named = λ c h. h.name;
  },
  record {
    makes = steering_function_to_c-IsReadableSteering;
    reads = steering_function_to_proto-IsDefined;
    named = λ c h. h.name;
  },
  record {
    makes = network_connection_to_c-IsReadableConnection;
    reads = network_connection_to_proto-IsDefined;
    named = λ c h. h.name;
  },
  record {
    makes = shard_to_c-IsReadableShard;
    reads = shard_to_proto-IsDefined;
    named = λ c h. h.name;
  },
  record {
    makes = session_context_to_c-IsReadableSession;
    reads = session_context_to_proto-IsDefined;
    named = λ c h. h.name;
  },
)

-- For each of the six kinds of items: on a readable structure, with only terminated strings, sizes
-- within the arrays and tagged unions, each of create, update, get and delete returns without an
-- undefined read, whatever the server answers, and the structure that create, update or get leaves
-- in its buffer is readable again.
pub calls_safe :
    {World : Type 0} (network : Bytes → Stub World) ⦃flags : MapField Bool⦄ ⦃texts : MapField Bytes⦄
    (slots : Slots) (tid : ℕ) (w : World) (gateway : UpsfServiceGateway) (plane : UpsfUserPlane)
    (steering : UpsfSteeringFunction) (connection : UpsfNetworkConnection) (shard : UpsfShard)
    (session : UpsfSessionContext)
    → IsReadableGateway gateway
    → IsReadableUserPlane plane
    → IsReadableSteering steering
    → IsReadableConnection connection
    → IsReadableShard shard
    → IsReadableSession session
    → AreSafe network Exports.service_gateway IsReadableGateway slots tid w gateway
      × AreSafe network Exports.service_gateway_user_plane IsReadableUserPlane slots tid w plane
      × AreSafe network Exports.traffic_steering_function IsReadableSteering slots tid w steering
      × AreSafe network Exports.network_connection IsReadableConnection slots tid w connection
      × AreSafe network Exports.shard IsReadableShard slots tid w shard
      × AreSafe network Exports.session_context IsReadableSession slots tid w session
calls_safe network slots tid w gateway plane steering connection shard session h1 h2 h3 h4 h5 h6 =
    let safe = all_kinds_safe in
    (
      all_calls_safe network Exports.service_gateway IsReadableGateway safe.0 slots tid w gateway
          h1,
      all_calls_safe network Exports.service_gateway_user_plane IsReadableUserPlane safe.1 slots tid
          w plane h2,
      all_calls_safe network Exports.traffic_steering_function IsReadableSteering safe.2 slots tid w
          steering h3,
      all_calls_safe network Exports.network_connection IsReadableConnection safe.3 slots tid w
          connection h4,
      all_calls_safe network Exports.shard IsReadableShard safe.4 slots tid w shard h5,
      all_calls_safe network Exports.session_context IsReadableSession safe.5 slots tid w session
          h6,
    )
