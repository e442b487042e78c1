-- ===== src/Metrics/Matching.antt =====
-- metrics.rs: no recorder can make the Prometheus library panic over its labels. The library panics if
-- the number of label values is not that of the metric's labels.
use udp_director.Prelude.{ℕ, String, Bool, true, false, List, ◌≡◌, refl, length, All}
use udp_director.Prelude.Int.{ℤ}
use udp_director.Metrics.{Metric, Kind, int_gauge, int_counter, histogram, gauge, declaration}
use udp_director.Metrics.Recorders.{
  Update, inc, dec, inc_by, set, set_float, observe, record_session_start, record_session_end,
  record_packet_received, record_packet_sent, record_query_request, record_k8s_query, record_error,
  update_default_endpoint_available, update_available_resources, uptime_tick,
}

-- A call of one of the program's recorders.
pub data Recording (Float : Type 0) : Type 0 where
  session_start : String → Recording Float
  session_end : String → Float → Recording Float
  packet_received packet_sent : String → ℕ → Recording Float
  query_request : String → Float → Recording Float
  k8s_query : String → String → Float → Recording Float
  error : String → String → Recording Float
  endpoint_available : Bool → Recording Float
  resources : String → String → ℤ → Recording Float
  uptime : Float → Recording Float

abbrev can_inc : Kind → Bool
can_inc int_counter = true
can_inc int_gauge = true
can_inc gauge = true
can_inc histogram = false

module _ (Float : Type 0) (of_size : ℕ → Float) where
  abbrev pub updates : Recording Float → List (Update Float of_size)
  updates (session_start session_type) = record_session_start Float of_size session_type
  updates (session_end session_type duration) =
      record_session_end Float of_size session_type duration
  updates (packet_received source size) = record_packet_received Float of_size source size
  updates (packet_sent destination size) = record_packet_sent Float of_size destination size
  updates (query_request status duration) = record_query_request Float of_size status duration
  updates (k8s_query resource_type status duration) =
      record_k8s_query Float of_size resource_type status duration
  updates (error error_type component) = record_error Float of_size error_type component
  updates (endpoint_available available) = update_default_endpoint_available Float of_size available
  updates (resources resource_type namespace count) =
      update_available_resources Float of_size resource_type namespace count
  updates (uptime elapsed) = uptime_tick Float of_size elapsed

  abbrev HasLabels : Metric → List String → Type 0
  HasLabels metric values = length values ≡ length (declaration metric).labels

  -- The metric is of a kind that has the call, and has as many labels as it is given values.
  abbrev pub Fits : Update Float of_size → Type 0
  Fits (inc metric values) = HasLabels metric values × (can_inc (declaration metric).kind ≡ true)
  Fits (dec metric values) = HasLabels metric values × ((declaration metric).kind ≡ int_gauge)
  Fits (inc_by metric values n) =
      HasLabels metric values × ((declaration metric).kind ≡ int_counter)
  Fits (set metric values n) = HasLabels metric values × ((declaration metric).kind ≡ int_gauge)
  Fits (set_float metric values x) = HasLabels metric values × ((declaration metric).kind ≡ gauge)
  Fits (observe metric values x) = HasLabels metric values × ((declaration metric).kind ≡ histogram)

  -- Every call of every recorder fits the metric that it is made on.
  pub updates-Fits : (r : Recording Float) → All Fits (updates r)
  unfolding record_session_start record_session_end record_packet_received record_packet_sent
      record_query_request record_k8s_query record_error update_default_endpoint_available
      update_available_resources uptime_tick declaration
  updates-Fits (session_start session_type) = ((refl, refl), ((refl, refl), tt))
  updates-Fits (session_end session_type duration) = ((refl, refl), ((refl, refl), tt))
  updates-Fits (packet_received source size) = ((refl, refl), ((refl, refl), ((refl, refl), tt)))
  updates-Fits (packet_sent destination size) = ((refl, refl), ((refl, refl), ((refl, refl), tt)))
  updates-Fits (query_request status duration) = ((refl, refl), ((refl, refl), tt))
  updates-Fits (k8s_query resource_type status duration) = ((refl, refl), ((refl, refl), tt))
  updates-Fits (error error_type component) = ((refl, refl), tt)
  updates-Fits (endpoint_available available) = ((refl, refl), tt)
  updates-Fits (resources resource_type namespace count) = ((refl, refl), tt)
  updates-Fits (uptime elapsed) = ((refl, refl), tt)
