-- ===== src/WellFormed/Session.antt =====
-- Session contexts that can be read.
use libupsf.Messages.{SessionContext, SessionSpec}
use libupsf.Structs.{UpsfSessionContext, UpsfSessionSpec}
use libupsf.Mapping.Session.{
  session_desired_state_to_c, session_desired_state_to_proto, session_spec_to_c,
  session_spec_to_proto, session_current_state_to_c, session_current_state_to_proto,
  session_status_to_c, session_status_to_proto, session_context_to_c, session_context_to_proto,
}
use libupsf.WellFormed.Arrays.{
  IsDefined, IsDefined-some, IsDefined-bind, IsTerminated, Holds, store-IsTerminated,
  strings_break-Holds, strings-IsDefined,
}
use libupsf.WellFormed.Endpoint.{
  IsReadableMetadata, metadata_to_c-IsReadableMetadata, metadata_to_proto-IsDefined,
  session_filter_to_c-IsTerminated, session_filter_to_proto-IsDefined,
}

pub record IsReadableSessionSpec (c : UpsfSessionSpec) : Type 0 where
  pub traffic_steering_function : IsTerminated c.traffic_steering_function
  pub groups : Holds IsTerminated c.required_service_group_size c.required_service_group
  pub circuit_id : IsTerminated c.circuit_id
  pub remote_id : IsTerminated c.remote_id
  pub source_mac_address : IsTerminated c.session_filter.source_mac_address
  pub shard : IsTerminated c.desired_state.shard
  pub network_connection : IsTerminated c.network_connection

pub record IsReadableSession (c : UpsfSessionContext) : Type 0 where
  pub name : IsTerminated c.name
  pub metadata : IsReadableMetadata c.metadata
  pub spec : IsReadableSessionSpec c.spec
  pub user_plane_shard : IsTerminated c.status.current_state.user_plane_shard
  pub tsf_shard : IsTerminated c.status.current_state.tsf_shard

session_spec_to_c-IsReadable : (m : SessionSpec) → IsReadableSessionSpec (session_spec_to_c m)
unfolding session_spec_to_c session_desired_state_to_c
session_spec_to_c-IsReadable m = record {
  traffic_steering_function = store-IsTerminated m.traffic_steering_function;
  groups = strings_break-Holds m.required_service_group;
  circuit_id = store-IsTerminated m.circuit_id;
  remote_id = store-IsTerminated m.remote_id;
  source_mac_address = session_filter_to_c-IsTerminated m.session_filter;
  shard = store-IsTerminated m.desired_state.shard;
  network_connection = store-IsTerminated m.network_connection;
}

-- The structure that a session context is mapped to has only terminated strings, and at most 16
-- required service groups in its array of 16.
pub session_context_to_c-IsReadableSession :
    (m : SessionContext) → IsReadableSession (session_context_to_c m)
unfolding session_context_to_c session_status_to_c session_current_state_to_c
session_context_to_c-IsReadableSession m = record {
  name = store-IsTerminated m.name;
  metadata = metadata_to_c-IsReadableMetadata m.metadata;
  spec = session_spec_to_c-IsReadable m.spec;
  user_plane_shard = store-IsTerminated m.status.current_state.user_plane_shard;
  tsf_shard = store-IsTerminated m.status.current_state.tsf_shard;
}

pub session_spec_to_proto-IsDefined :
    (c : UpsfSessionSpec) (to : SessionSpec)
    → IsReadableSessionSpec c
    → IsDefined (session_spec_to_proto c to)
unfolding session_spec_to_proto session_desired_state_to_proto
session_spec_to_proto-IsDefined c to h = IsDefined-bind _ _ h.traffic_steering_function λ t.
    IsDefined-bind _ _ (strings-IsDefined _ _ h.groups) λ g. IsDefined-bind _ _ h.circuit_id λ i.
      IsDefined-bind _ _ h.remote_id λ r.
        IsDefined-bind _ _
          (session_filter_to_proto-IsDefined _ to.session_filter h.source_mac_address)
          λ f.
            IsDefined-bind _ _ (IsDefined-bind _ _ h.shard λ s. IsDefined-some _)
              λ d. IsDefined-bind _ _ h.network_connection λ n. IsDefined-some _

-- A readable session context of any caller is mapped to a message without an undefined read.
pub session_context_to_proto-IsDefined :
    (c : UpsfSessionContext) (to : SessionContext)
    → IsReadableSession c
    → IsDefined (session_context_to_proto c to)
unfolding session_context_to_proto session_status_to_proto session_current_state_to_proto
session_context_to_proto-IsDefined c to h = IsDefined-bind _ _ h.name λ n.
    IsDefined-bind _ _ (metadata_to_proto-IsDefined c.metadata to.metadata h.metadata) λ d.
      IsDefined-bind _ _ (session_spec_to_proto-IsDefined c.spec to.spec h.spec) λ s.
        IsDefined-bind _ _
          (IsDefined-bind _ _
            (IsDefined-bind _ _ h.user_plane_shard
              λ u. IsDefined-bind _ _ h.tsf_shard λ t. IsDefined-some _)
            λ c. IsDefined-some _)
          λ s. IsDefined-some _
