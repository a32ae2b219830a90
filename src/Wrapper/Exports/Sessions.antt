-- ===== src/Wrapper/Exports/Sessions.antt =====
-- The functions of upsf/upsf.h for network connections, shards and session contexts.
use libupsf.Prelude.{ℕ, Bool, List, Option, ℤ}
use libupsf.Text.{Bytes}
use libupsf.MapField.{MapField}
use libupsf.Structs.{UpsfNetworkConnection, UpsfShard, UpsfSessionContext}
use libupsf.Service.{Stub}
use libupsf.Slots.{Slots}
use libupsf.Wrapper.{Returned, upsf_create, upsf_update, upsf_get, upsf_delete, upsf_list}
use libupsf.Wrapper.Exports.{network_connection, shard, session_context}

module _ {World : Type 0} (network : Bytes → Stub World) where
  unfoldable pub upsf_create_network_connection :
      ⦃ops : MapField Bool⦄
      → Slots
      → ℕ
      → Option UpsfNetworkConnection
      → World
      → Option (World × Returned UpsfNetworkConnection)
  unfolding upsf_create
  upsf_create_network_connection ⦃ops⦄ = upsf_create network (network_connection ⦃ops = ops⦄)

  unfoldable pub upsf_update_network_connection :
      ⦃ops : MapField Bool⦄
      → Slots
      → ℕ
      → Option UpsfNetworkConnection
      → World
      → Option (World × Returned UpsfNetworkConnection)
  unfolding upsf_update
  upsf_update_network_connection ⦃ops⦄ = upsf_update network (network_connection ⦃ops = ops⦄)

  unfoldable pub upsf_get_network_connection :
      ⦃ops : MapField Bool⦄
      → Slots
      → ℕ
      → Option UpsfNetworkConnection
      → World
      → Option (World × Returned UpsfNetworkConnection)
  unfolding upsf_get
  upsf_get_network_connection ⦃ops⦄ = upsf_get network (network_connection ⦃ops = ops⦄)

  unfoldable pub upsf_delete_network_connection :
      ⦃ops : MapField Bool⦄ → Slots → ℕ → Option UpsfNetworkConnection → World → Option (World × ℤ)
  unfolding upsf_delete
  upsf_delete_network_connection ⦃ops⦄ = upsf_delete network (network_connection ⦃ops = ops⦄)

  unfoldable pub upsf_list_network_connections :
      ⦃ops : MapField Bool⦄
      → Slots
      → ℕ
      → Option (List UpsfNetworkConnection)
      → World
      → World × Option (List UpsfNetworkConnection) × ℤ
  unfolding upsf_list
  upsf_list_network_connections ⦃ops⦄ = upsf_list network (network_connection ⦃ops = ops⦄)

  unfoldable pub upsf_create_shard :
      ⦃ops : MapField Bytes⦄
      → Slots
      → ℕ
      → Option UpsfShard
      → World
      → Option (World × Returned UpsfShard)
  unfolding upsf_create
  upsf_create_shard ⦃ops⦄ = upsf_create network (shard ⦃ops = ops⦄)

  unfoldable pub upsf_update_shard :
      ⦃ops : MapField Bytes⦄
      → Slots
      → ℕ
      → Option UpsfShard
      → World
      → Option (World × Returned UpsfShard)
  unfolding upsf_update
  upsf_update_shard ⦃ops⦄ = upsf_update network (shard ⦃ops = ops⦄)

  unfoldable pub upsf_get_shard :
      ⦃ops : MapField Bytes⦄
      → Slots
      → ℕ
      → Option UpsfShard
      → World
      → Option (World × Returned UpsfShard)
  unfolding upsf_get
  upsf_get_shard ⦃ops⦄ = upsf_get network (shard ⦃ops = ops⦄)

  unfoldable pub upsf_delete_shard :
      ⦃ops : MapField Bytes⦄ → Slots → ℕ → Option UpsfShard → World → Option (World × ℤ)
  unfolding upsf_delete
  upsf_delete_shard ⦃ops⦄ = upsf_delete network (shard ⦃ops = ops⦄)

  unfoldable pub upsf_list_shards :
      ⦃ops : MapField Bytes⦄
      → Slots
      → ℕ
      → Option (List UpsfShard)
      → World
      → World × Option (List UpsfShard) × ℤ
  unfolding upsf_list
  upsf_list_shards ⦃ops⦄ = upsf_list network (shard ⦃ops = ops⦄)

  unfoldable pub upsf_create_session_context :
      Slots → ℕ → Option UpsfSessionContext → World → Option (World × Returned UpsfSessionContext)
  unfolding upsf_create
  upsf_create_session_context = upsf_create network session_context

  unfoldable pub upsf_update_session_context :
      Slots → ℕ → Option UpsfSessionContext → World → Option (World × Returned UpsfSessionContext)
  unfolding upsf_update
  upsf_update_session_context = upsf_update network session_context

  unfoldable pub upsf_get_session_context :
      Slots → ℕ → Option UpsfSessionContext → World → Option (World × Returned UpsfSessionContext)
  unfolding upsf_get
  upsf_get_session_context = upsf_get network session_context

  unfoldable pub upsf_delete_session_context :
      Slots → ℕ → Option UpsfSessionContext → World → Option (World × ℤ)
  unfolding upsf_delete
  upsf_delete_session_context = upsf_delete network session_context

  unfoldable pub upsf_list_session_contexts :
      Slots
      → ℕ
      → Option (List UpsfSessionContext)
      → World
      → World × Option (List UpsfSessionContext) × ℤ
  unfolding upsf_list
  upsf_list_session_contexts = upsf_list network session_context
