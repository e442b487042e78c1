-- ===== src/Metrics/Recorders.antt =====
-- metrics.rs: what each recorder calls on the Prometheus library. Only the tick of the uptime in main.rs
-- is ever called by the program.
use udp_director.Prelude.{ℕ, String, Bool, List, [], ◌∷◌, if◌then◌else◌}
use udp_director.Prelude.Int.{ℤ, pos}
use udp_director.Metrics.{
  Metric, active_sessions, total_sessions, session_duration, packets_received, packets_sent,
  bytes_received, bytes_sent, packet_size, query_requests, query_duration, k8s_queries,
  k8s_query_duration, default_endpoint_available, available_resources, errors, uptime_seconds,
}

-- A call on a metric with its label values. `Float` is the library's float, with the cast from a size.
module _ (Float : Type 0) (of_size : ℕ → Float) where
  pub data Update : Type 0 where
    inc dec : Metric → List String → Update
    inc_by : Metric → List String → ℕ → Update
    set : Metric → List String → ℤ → Update
    set_float observe : Metric → List String → Float → Update

  unfoldable pub record_session_start : String → List Update
  record_session_start session_type =
      inc total_sessions (session_type ∷ []) ∷ inc active_sessions [] ∷ []

  unfoldable pub record_session_end : String → Float → List Update
  record_session_end session_type duration_seconds =
      dec active_sessions [] ∷ observe session_duration (session_type ∷ []) duration_seconds ∷ []

  unfoldable pub record_packet_received : String → ℕ → List Update
  record_packet_received source size =
      inc packets_received (source ∷ [])
      ∷ inc_by bytes_received (source ∷ []) size
      ∷ observe packet_size ("inbound" ∷ []) (of_size size)
      ∷ []

  unfoldable pub record_packet_sent : String → ℕ → List Update
  record_packet_sent destination size =
      inc packets_sent (destination ∷ [])
      ∷ inc_by bytes_sent (destination ∷ []) size
      ∷ observe packet_size ("outbound" ∷ []) (of_size size)
      ∷ []

  unfoldable pub record_query_request : String → Float → List Update
  record_query_request status duration_seconds =
      inc query_requests (status ∷ []) ∷ observe query_duration (status ∷ []) duration_seconds ∷ []

  unfoldable pub record_k8s_query : String → String → Float → List Update
  record_k8s_query resource_type status duration_seconds =
      inc k8s_queries (resource_type ∷ status ∷ [])
      ∷ observe k8s_query_duration (resource_type ∷ []) duration_seconds
      ∷ []

  unfoldable pub record_error : String → String → List Update
  record_error error_type component = inc errors (error_type ∷ component ∷ []) ∷ []

  unfoldable pub update_default_endpoint_available : Bool → List Update
  update_default_endpoint_available available =
      set default_endpoint_available [] (if available then pos 1 else pos 0) ∷ []

  unfoldable pub update_available_resources : String → String → ℤ → List Update
  update_available_resources resource_type namespace count =
      set available_resources (resource_type ∷ namespace ∷ []) count ∷ []

  -- The task of `main` that ticks each second.
  unfoldable pub uptime_tick : Float → List Update
  uptime_tick elapsed = set_float uptime_seconds [] elapsed ∷ []
