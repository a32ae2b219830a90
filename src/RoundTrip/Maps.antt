-- ===== src/RoundTrip/Maps.antt =====
-- Map fields there and back, entry by entry.
use mathlib.Core.Option
use libupsf.Prelude.{
  ◌≤◌, ◌≡◌, refl, pos, ◌∙◌, Bool, true, List, [], ◌∷◌, map, some, take, take_all, length, All,
  arith,
}
use libupsf.Text.{Bytes}
use libupsf.Text.Copy.{FitsText, clip, clip_fits}
use libupsf.Arrays.{max_num}
use libupsf.MapField.{MapField, insert_all, lookup, IsFresh, HasDistinctKeys, lookup-insert_all}
use libupsf.Messages.{
  ShardCurrentState, NetworkConnectionStatus, default_shard_current_state, default_nc_status,
}
use libupsf.Mapping.Shard.{shard_current_state_to_c, shard_current_state_to_proto}
use libupsf.Mapping.Connection.{nc_status_to_c, nc_status_to_proto}
use libupsf.RoundTrip.Shard.{clip_entry, shard_current_state_round_trip}
use libupsf.RoundTrip.Connection.{raise_flag, nc_status_round_trip}

-- A map that the arrays hold: at most 16 entries, different keys, and keys that fit.
pub record FitsMap {V : Type 0} (m : List (Bytes × V)) : Type 0 where
  pub short : length m ≤ max_num
  pub distinct : HasDistinctKeys m
  pub keys : All (λ e. FitsText e.0) m

module _ {V : Type 0} (f : Bytes × V → Bytes × V) (g : V → V)
    (p : (k : Bytes) (v : V) → FitsText k → f (k, v) ≡ (k, g v)) where
  IsFresh-map :
      (k : Bytes) (m : List (Bytes × V))
      → All (λ e. FitsText e.0) m
      → IsFresh k m
      → IsFresh k (map f m)
  IsFresh-map k [] a h = tt
  IsFresh-map k ((j, v) ∷ m) a h = rw (p j v a.0) (h.0, IsFresh-map k m a.1 h.1)

  HasDistinctKeys-map :
      (m : List (Bytes × V))
      → All (λ e. FitsText e.0) m
      → HasDistinctKeys m
      → HasDistinctKeys (map f m)
  HasDistinctKeys-map [] a h = tt
  HasDistinctKeys-map ((j, v) ∷ m) a h =
      rw (p j v a.0) (IsFresh-map j m a.1 h.0, HasDistinctKeys-map m a.1 h.1)

  lookup-map :
      (k : Bytes) (m : List (Bytes × V))
      → All (λ e. FitsText e.0) m
      → lookup k (map f m) ≡ Option.map g (lookup k m)
  unfolding lookup
  lookup-map k [] a = refl
  lookup-map k ((j, w) ∷ m) a = rw (p j w a.0) (ground (arith, lookup-map k m a.1))

  lookup-round_trip :
      ⦃ops : MapField V⦄ (k : Bytes) (m : List (Bytes × V))
      → FitsMap m
      → lookup k (insert_all (map f (take max_num m)) []) ≡ Option.map g (lookup k m)
  lookup-round_trip k m h = rw (take_all max_num m h.short) (
      lookup-insert_all k (map f m) (HasDistinctKeys-map m h.keys h.distinct)
      ∙ lookup-map k m h.keys)

-- A map of a shard that has at most 16 entries, with different keys of at most 63 bytes and none
-- of them zero, comes back with the same keys, each with its value clipped to 63 bytes, whatever
-- order protobuf keeps the entries in.
pub tsf_connections_kept :
    ⦃ops : MapField Bytes⦄ (m : ShardCurrentState)
    → FitsMap m.tsf_network_connection
    → (r : ShardCurrentState) × (shard_current_state_to_proto
          (shard_current_state_to_c m)
          default_shard_current_state
        ≡ some r)
      × ((k : Bytes)
          → lookup k r.tsf_network_connection ≡ Option.map clip (lookup k m.tsf_network_connection))
tsf_connections_kept m h = (
  _,
  shard_current_state_round_trip m,
  λ k.
      lookup-round_trip clip_entry clip (λ j v fits. rw (clip_fits j fits)) k
        m.tsf_network_connection h,
)

-- The status of a network connection whose map has at most 16 entries, with different keys of at
-- most 63 bytes and none of them zero, comes back with the same keys, but with every flag true,
-- also those that were false, and with 0 for the allocated shards.
pub nc_status_flags_lost :
    ⦃ops : MapField Bool⦄ (m : NetworkConnectionStatus)
    → FitsMap m.nc_active
    → (r : NetworkConnectionStatus) × (nc_status_to_proto (nc_status_to_c m) default_nc_status
        ≡ some r)
      × ((k : Bytes) → lookup k r.nc_active ≡ Option.map (λ _. true) (lookup k m.nc_active))
      × (r.allocated_shards ≡ pos 0)
nc_status_flags_lost m h = (
  _,
  nc_status_round_trip m,
  λ k. lookup-round_trip raise_flag (λ _. true) (λ j v fits. rw (clip_fits j fits)) k m.nc_active h,
  refl,
)
