-- ===== src/Printing/Shard.antt =====
-- The streams of shards.
use libupsf.Prelude.{[], ◌∷◌, Option, some, ◌>>=◌}
use libupsf.Text.{Bytes, until_nul}
use libupsf.Messages.{
  Timestamp, Shard, ShardSpec, ShardDesiredState, ShardStatus, ShardCurrentState, Mbb,
}
use libupsf.Names.{upsf_mbb_state_to_name}
use libupsf.Slots.{show_int}
use libupsf.Printing.Common.{codes, texts, print_indexed, print_entries, print_metadata}

-- The list has a closing parenthesis, but no opening one, as in the code.
unfoldable pub print_shard_desired_state : ShardDesiredState → Bytes
unfolding texts until_nul print_indexed
print_shard_desired_state m = texts (
    codes "DesiredState("
    ∷ codes "sgup="
    ∷ until_nul m.service_gateway_user_plane
    ∷ codes ", "
    ∷ codes "NetworkConnection="
    ∷ print_indexed until_nul 0 m.network_connection
    ∷ codes ")"
    ∷ codes ")"
    ∷ [])

unfoldable pub print_shard_spec : ShardSpec → Bytes
unfolding texts until_nul print_indexed
print_shard_spec m = texts (
    codes "Spec("
    ∷ codes "max_session_count="
    ∷ show_int m.max_session_count
    ∷ codes ", "
    ∷ codes "virtual_mac="
    ∷ until_nul m.virtual_mac
    ∷ codes ", "
    ∷ print_shard_desired_state m.desired_state
    ∷ codes ", "
    ∷ codes "Prefix="
    ∷ print_indexed until_nul 0 m.prefix
    ∷ codes ")"
    ∷ codes ")"
    ∷ [])

unfoldable pub print_shard_current_state : ShardCurrentState → Bytes
unfolding texts until_nul print_entries
print_shard_current_state m = texts (
    codes "CurrentState("
    ∷ codes "sgup="
    ∷ until_nul m.service_gateway_user_plane
    ∷ codes ", "
    ∷ codes "TsfNetworkConnection="
    ∷ print_entries until_nul m.tsf_network_connection
    ∷ codes ")"
    ∷ codes ")"
    ∷ [])

-- The supported service groups are not printed.
unfoldable pub print_shard_status : ShardStatus → Bytes
unfolding texts
print_shard_status m = texts (
    codes "Status("
    ∷ codes "allocated_session_count="
    ∷ show_int m.allocated_session_count
    ∷ codes ", "
    ∷ codes "maximum_allocated_quality="
    ∷ show_int m.maximum_allocated_quality
    ∷ codes ", "
    ∷ print_shard_current_state m.current_state
    ∷ codes ")"
    ∷ [])

unfoldable pub print_mbb : Mbb → Option Bytes
unfolding texts
print_mbb m = do
  state ← upsf_mbb_state_to_name m.mbb_state
  some (texts (codes "Mbb(" ∷ codes "State=" ∷ codes state ∷ codes ")" ∷ []))

module _ (time : Timestamp → Bytes) where
  unfoldable pub print_shard : Shard → Option Bytes
  unfolding texts until_nul
  print_shard m = do
    metadata ← print_metadata time m.metadata
    mbb ← print_mbb m.mbb
    some (
        texts (
          codes "Shard("
          ∷ codes "name="
          ∷ until_nul m.name
          ∷ codes ", "
          ∷ metadata
          ∷ codes ", "
          ∷ print_shard_spec m.spec
          ∷ codes ", "
          ∷ print_shard_status m.status
          ∷ codes ", "
          ∷ mbb
          ∷ codes ")"
          ∷ []))
