-- ===== src/Printing/Items.antt =====
-- The printed texts of the six kinds of items have no zero byte.
use libupsf.Prelude.{◌≡◌, refl, Bool, true, false, if◌then◌else◌}
use libupsf.Text.{Bytes, until_nul}
use libupsf.Messages.{
  Timestamp, NcSpec, NetworkConnectionSpec, NetworkConnectionStatus, NetworkConnection, Shard, Mbb,
  ShardSpec, ShardStatus, SessionContext, SessionSpec, ServiceGateway, ServiceGatewayUserPlane,
  UserPlaneSpec, TrafficSteeringFunction,
}
use libupsf.Names.{mbb_state_names, upsf_mbb_state_to_name}
use libupsf.Printing.Common.{codes, texts, print_session_filter}
use libupsf.Printing.Connection.{
  print_ss_ptp, print_ss_mptp, print_ms_ptp, print_ms_mptp, print_nc_union, print_nc_spec,
  print_nc_status, print_network_connection,
}
use libupsf.Printing.Gateway.{
  print_service_gateway, print_user_plane, print_user_plane_spec, print_user_plane_status,
  print_steering_function, print_steering_spec,
}
use libupsf.Printing.Shard.{
  print_shard, print_shard_spec, print_shard_desired_state, print_shard_status,
  print_shard_current_state, print_mbb,
}
use libupsf.Printing.Session.{
  print_session_context, print_session_spec, print_session_desired_state, print_session_status,
  print_session_current_state,
}
use libupsf.Printing.Plain.{
  is_plain, IsPlain, Each-bind, plain_rules, is_plain-append, is_plain-until_nul,
  is_plain-print_entries, endpoint_plain, endpoints_plain, texts_plain, name_plain,
  maintenance-IsPlain, metadata-IsPlain,
}

abbrev Plain : Bytes → Type 0
Plain t = is_plain t ≡ true

nc_union-Plain : (u : NcSpec) → Plain (print_nc_union u)
unfolding print_nc_union print_ss_ptp print_ss_mptp print_ms_ptp print_ms_mptp texts is_plain
nc_union-Plain NcSpec.unset = refl
nc_union-Plain (NcSpec.ss_ptp s) =
    simp (plain_rules, endpoints_plain s.sgup_endpoint, endpoint_plain s.tsf_endpoint)
nc_union-Plain (NcSpec.ss_mptpc s) =
    simp (plain_rules, endpoints_plain s.sgup_endpoint, endpoints_plain s.tsf_endpoint)
nc_union-Plain (NcSpec.ms_ptp s) =
    simp (plain_rules, endpoint_plain s.sgup_endpoint, endpoint_plain s.tsf_endpoint)
nc_union-Plain (NcSpec.ms_mptp s) =
    simp (plain_rules, endpoint_plain s.sgup_endpoint, endpoints_plain s.tsf_endpoint)

nc_spec-Plain : (m : NetworkConnectionSpec) → Plain (print_nc_spec m)
unfolding print_nc_spec texts is_plain
nc_spec-Plain m = simp (plain_rules, nc_union-Plain m.nc_spec)

flag-Plain : (b : Bool) → Plain (if b then codes "1" else codes "0")
unfolding is_plain
flag-Plain true = refl
flag-Plain false = refl

nc_status-Plain : (m : NetworkConnectionStatus) → Plain (print_nc_status m)
unfolding print_nc_status texts is_plain
nc_status-Plain m = simp (
  plain_rules,
  is_plain-print_entries (λ (b : Bool). if b then codes "1" else codes "0") m.nc_active flag-Plain,
)

user_plane_spec-Plain : (m : UserPlaneSpec) → Plain (print_user_plane_spec m)
unfolding print_user_plane_spec texts is_plain
user_plane_spec-Plain m =
    simp (plain_rules, texts_plain m.supported_service_group, endpoint_plain m.default_endpoint)

shard_spec-Plain : (m : ShardSpec) → Plain (print_shard_spec m)
unfolding print_shard_spec print_shard_desired_state texts is_plain
shard_spec-Plain m =
    simp (plain_rules, texts_plain m.desired_state.network_connection, texts_plain m.prefix)

shard_status-Plain : (m : ShardStatus) → Plain (print_shard_status m)
unfolding print_shard_status print_shard_current_state texts is_plain
shard_status-Plain m = simp (
  plain_rules,
  is_plain-print_entries until_nul m.current_state.tsf_network_connection is_plain-until_nul,
)

mbb-IsPlain : (m : Mbb) → IsPlain (print_mbb m)
unfolding print_mbb texts is_plain upsf_mbb_state_to_name
mbb-IsPlain m =
    Each-bind (λ s. Plain (codes s)) Plain _ _
      (name_plain mbb_state_names 6 m.mbb_state
        (refl, (refl, (refl, (refl, (refl, (refl, (refl, tt))))))))
      λ s h. simp (is_plain-append, h)

session_spec-Plain : (m : SessionSpec) → Plain (print_session_spec m)
unfolding print_session_spec print_session_filter print_session_desired_state texts is_plain
session_spec-Plain m = simp (plain_rules, texts_plain m.required_service_group)

module _ (time : Timestamp → Bytes) (time_plain : (t : Timestamp) → Plain (time t)) where
  service_gateway-IsPlain : (m : ServiceGateway) → IsPlain (print_service_gateway time m)
  unfolding print_service_gateway texts is_plain
  service_gateway-IsPlain m =
      Each-bind Plain Plain _ _ (metadata-IsPlain time time_plain m.metadata)
        λ t h. simp (plain_rules, h)

  user_plane-IsPlain : (m : ServiceGatewayUserPlane) → IsPlain (print_user_plane time m)
  unfolding print_user_plane print_user_plane_status texts is_plain
  user_plane-IsPlain m =
      Each-bind Plain Plain _ _ (metadata-IsPlain time time_plain m.metadata) λ t h.
        Each-bind Plain Plain _ _ (maintenance-IsPlain m.maintenance)
          λ t' h'. simp (plain_rules, h, h', user_plane_spec-Plain m.spec)

  steering_function-IsPlain :
      (m : TrafficSteeringFunction) → IsPlain (print_steering_function time m)
  unfolding print_steering_function print_steering_spec texts is_plain
  steering_function-IsPlain m =
      Each-bind Plain Plain _ _ (metadata-IsPlain time time_plain m.metadata)
        λ t h. simp (plain_rules, h, endpoint_plain m.spec.default_endpoint)

  network_connection-IsPlain : (m : NetworkConnection) → IsPlain (print_network_connection time m)
  unfolding print_network_connection texts is_plain
  network_connection-IsPlain m =
      Each-bind Plain Plain _ _ (metadata-IsPlain time time_plain m.metadata)
        λ t h. simp (plain_rules, h, nc_spec-Plain m.spec, nc_status-Plain m.status)

  shard-IsPlain : (m : Shard) → IsPlain (print_shard time m)
  unfolding print_shard texts is_plain
  shard-IsPlain m = Each-bind Plain Plain _ _ (metadata-IsPlain time time_plain m.metadata) λ t h.
      Each-bind Plain Plain _ _ (mbb-IsPlain m.mbb)
        λ t' h'. simp (plain_rules, h, h', shard_spec-Plain m.spec, shard_status-Plain m.status)

  session_context-IsPlain : (m : SessionContext) → IsPlain (print_session_context time m)
  unfolding print_session_context print_session_status print_session_current_state texts is_plain
  session_context-IsPlain m =
      Each-bind Plain Plain _ _ (metadata-IsPlain time time_plain m.metadata)
        λ t h. simp (plain_rules, h, session_spec-Plain m.spec)

  -- Where protobuf prints times without zero bytes, the text of an item of any kind has no zero byte
  -- if it is defined, whatever bytes the item's strings hold.
  pub all_items-IsPlain :
      ((m : ServiceGateway) → IsPlain (print_service_gateway time m))
      × ((m : ServiceGatewayUserPlane) → IsPlain (print_user_plane time m))
      × ((m : TrafficSteeringFunction) → IsPlain (print_steering_function time m))
      × ((m : NetworkConnection) → IsPlain (print_network_connection time m))
      × ((m : Shard) → IsPlain (print_shard time m))
      × ((m : SessionContext) → IsPlain (print_session_context time m))
  all_items-IsPlain = (
    service_gateway-IsPlain, user_plane-IsPlain, steering_function-IsPlain,
    network_connection-IsPlain, shard-IsPlain, session_context-IsPlain,
  )
