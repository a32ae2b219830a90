-- ===== src/Printing/Session.antt =====
-- The streams of session contexts.
use libupsf.Prelude.{[], ◌∷◌, Option, some, ◌>>=◌}
use libupsf.Text.{Bytes, until_nul}
use libupsf.Messages.{
  Timestamp, SessionContext, SessionSpec, SessionDesiredState, SessionStatus, SessionCurrentState,
}
use libupsf.Slots.{show_int}
use libupsf.Printing.Common.{codes, texts, print_indexed, print_metadata, print_session_filter}

unfoldable pub print_session_desired_state : SessionDesiredState → Bytes
unfolding texts until_nul
print_session_desired_state m =
    texts (codes "DesiredState(" ∷ codes "shard=" ∷ until_nul m.shard ∷ codes ", " ∷ codes ")" ∷ [])

-- The network connection is not printed.
unfoldable pub print_session_spec : SessionSpec → Bytes
unfolding texts until_nul print_indexed
print_session_spec m = texts (
    codes "Spec("
    ∷ codes "tsf="
    ∷ until_nul m.traffic_steering_function
    ∷ codes ", "
    ∷ codes "RequiredServiceGroup("
    ∷ print_indexed until_nul 0 m.required_service_group
    ∷ codes "), "
    ∷ codes "required_quality="
    ∷ show_int m.required_quality
    ∷ codes ", "
    ∷ codes "circuit_id="
    ∷ until_nul m.circuit_id
    ∷ codes ", "
    ∷ codes "remote_id="
    ∷ until_nul m.remote_id
    ∷ codes ", "
    ∷ print_session_filter m.session_filter
    ∷ codes ", "
    ∷ print_session_desired_state m.desired_state
    ∷ codes ")"
    ∷ [])

unfoldable pub print_session_current_state : SessionCurrentState → Bytes
unfolding texts until_nul
print_session_current_state m = texts (
    codes "CurrentState("
    ∷ codes "up_shard="
    ∷ until_nul m.user_plane_shard
    ∷ codes ", "
    ∷ codes "tsf_shard="
    ∷ until_nul m.tsf_shard
    ∷ codes ", "
    ∷ codes ")"
    ∷ [])

unfoldable pub print_session_status : SessionStatus → Bytes
unfolding texts
print_session_status m =
    texts (codes "Status(" ∷ print_session_current_state m.current_state ∷ codes ")" ∷ [])

module _ (time : Timestamp → Bytes) where
  unfoldable pub print_session_context : SessionContext → Option Bytes
  unfolding texts until_nul
  print_session_context m = do
    metadata ← print_metadata time m.metadata
    some (
        texts (
          codes "SessionContext("
          ∷ codes "name="
          ∷ until_nul m.name
          ∷ codes ", "
          ∷ metadata
          ∷ codes ", "
          ∷ print_session_spec m.spec
          ∷ codes ", "
          ∷ print_session_status m.status
          ∷ codes ")"
          ∷ []))
