-- ===== src/Tests/Storing.antt =====
-- A user plane that is stored and got back.
use libupsf.Prelude.{◌≡◌, refl, true, List, [], ◌∷◌, ◌++◌, some}
use libupsf.Text.{zero_string, load, until_nul}
use libupsf.Mapping.Gateway.{user_plane_to_c}
use libupsf.RoundTrip.Gateway.{normalise_user_plane}
use libupsf.Structs.{UpsfUserPlane, zero_user_plane}
use libupsf.Service.{Item}
use libupsf.Slots.{Slots, find}
use libupsf.Wrapper.{filled, is_empty, upsf_get}
use libupsf.Wrapper.Exports
use libupsf.Wrapper.Storing.{get_stored, lossless_kinds}
use libupsf.Printing.Common.{codes}
use libupsf.Tests.Samples.{user_plane, stored, network}

abbrev slots : Slots
slots = (7, codes "localhost:50051") ∷ []

-- The list of the server once the user plane is in it.
abbrev now : List Item
now = Item.service_gateway_user_plane (normalise_user_plane user_plane) ∷ stored

-- As memset and snprintf leave it.
abbrev asked : UpsfUserPlane
asked = record zero_user_plane { name = record zero_string { str = user_plane.name ++ 0 ∷ [] } }

get_stored_example :
    upsf_get network Exports.service_gateway_user_plane slots 7 (some asked) now
    ≡ some (now, filled (user_plane_to_c user_plane))
unfolding find is_empty until_nul load
get_stored_example =
    get_stored network Exports.service_gateway_user_plane normalise_user_plane lossless_kinds.1
      slots 7 refl asked user_plane (record { items = now; finish = λ n. true }) [] stored refl refl
      tt refl refl refl
