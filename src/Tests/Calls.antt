-- ===== src/Tests/Calls.antt =====
-- Calls of the client and of the C interface.
use libupsf.Prelude.{
  arith, ◌≡◌, ◌≢◌, refl, true, false, [], ◌∷◌, some, pos, replicate, if◌then◌else◌,
}
use libupsf.Text.{load, store, zero_string}
use libupsf.MapField.{same_bytes}
use libupsf.Messages.{Shard, default_shard}
use libupsf.Structs.{zero_shard}
use libupsf.Mapping.Shard.{shard_to_c}
use libupsf.Service.{Item, shard_kind, has_shard}
use libupsf.Client.{read, read_all}
use libupsf.Client.Reading.{read_first}
use libupsf.Slots.{Slots, find}
use libupsf.Wrapper.{is_empty, filled, upsf_get, upsf_list}
use libupsf.Wrapper.Exports
use libupsf.Wrapper.Calls.{upsf_get_sound}
use libupsf.Wrapper.Lists.{upsf_list_lem}
use libupsf.Printing.Common.{codes}
use libupsf.Tests.Samples.{session, shard, stored, server, network, texts_map}

abbrev slots : Slots
slots = (7, codes "localhost:50051") ∷ []

read_run : (read server shard_kind (codes "shard-1") default_shard stored).2 ≡ true
unfolding read same_bytes has_shard
read_run = refl

read_first_example :
    read server shard_kind (codes "shard-1") default_shard stored
    ≡ (stored, shard, (if true then same_bytes shard.name (codes "shard-1") else false))
unfolding has_shard
read_first_example =
    read_first server shard_kind (codes "shard-1") default_shard stored
      (record { items = stored; finish = λ n. true }) refl (Item.session_context session ∷ [])
      (Item.unset ∷ []) (Item.shard shard) shard refl (refl, tt) refl

get_run :
    upsf_get network Exports.shard slots 7 (some (shard_to_c shard)) stored
    ≡ some (stored, filled (shard_to_c shard))
unfolding upsf_get shard_to_c find load store zero_string read same_bytes has_shard is_empty
get_run = refl

upsf_get_sound_example :
    (m : Shard) × (shard_to_c shard ≡ shard_to_c m)
    × (load (shard_to_c shard).name ≡ some m.name)
    × (m.name ≢ [])
upsf_get_sound_example =
    upsf_get_sound network Exports.shard slots 7 stored (shard_to_c shard) (shard_to_c shard)
      get_run

upsf_list_lem_example :
    upsf_list network Exports.shard slots 7 (some (replicate 2 zero_shard)) stored
    ≡ (stored, some (shard_to_c shard ∷ zero_shard ∷ []), pos 1)
unfolding find read_all has_shard
upsf_list_lem_example =
    upsf_list_lem network Exports.shard slots 7 stored (shard ∷ []) (replicate 2 zero_shard)
      (omega arith) refl refl
