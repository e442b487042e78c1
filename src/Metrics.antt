-- ===== src/Metrics.antt =====
-- metrics.rs and metrics_server.rs: the metrics that the program declares, and the HTTP endpoint.
pub mod Recorders
pub mod Matching
use udp_director.Prelude.{
  ℕ, String, Bool, true, false, Option, none, some, List, [], ◌∷◌, ◌==◌, string_eq, if◌then◌else◌,
  length,
}
use udp_director.Prelude.Int.{ℤ, pos}

-- The metrics that the program declares.
pub data Metric : Type 0 where
  active_sessions total_sessions session_duration : Metric
  packets_received packets_sent bytes_received bytes_sent packet_size : Metric
  query_requests query_duration : Metric
  k8s_queries k8s_query_duration default_endpoint_available available_resources : Metric
  errors session_age unique_clients uptime_seconds : Metric

-- `IntGauge` and `IntGaugeVec`, `IntCounterVec`, `HistogramVec`, `Gauge` and `GaugeVec`.
pub data Kind : Type 0 where
  int_gauge int_counter histogram gauge : Kind

-- The bounds of a histogram's buckets are in thousandths.
pub record Declared : Type 0 where
  pub name : String
  pub help : String
  pub kind : Kind
  pub labels : List String
  pub buckets : List ℕ

unfoldable pub declaration : Metric → Declared
declaration active_sessions = record {
  name = "udp_director_active_sessions";
  help = "Number of active UDP sessions";
  kind = int_gauge;
  labels = [];
  buckets = [];
}
declaration total_sessions = record {
  name = "udp_director_total_sessions";
  help = "Total number of sessions created";
  kind = int_counter;
  labels = "session_type" ∷ [];
  buckets = [];
}
declaration session_duration = record {
  name = "udp_director_session_duration_seconds";
  help = "Duration of sessions in seconds";
  kind = histogram;
  labels = "session_type" ∷ [];
  buckets = 1000 ∷ 5000 ∷ 10000 ∷ 30000 ∷ 60000 ∷ 300000 ∷ 600000 ∷ 1800000 ∷ 3600000 ∷ [];
}
declaration packets_received = record {
  name = "udp_director_packets_received_total";
  help = "Total number of packets received";
  kind = int_counter;
  labels = "source" ∷ [];
  buckets = [];
}
declaration packets_sent = record {
  name = "udp_director_packets_sent_total";
  help = "Total number of packets sent";
  kind = int_counter;
  labels = "destination" ∷ [];
  buckets = [];
}
declaration bytes_received = record {
  name = "udp_director_bytes_received_total";
  help = "Total bytes received";
  kind = int_counter;
  labels = "source" ∷ [];
  buckets = [];
}
declaration bytes_sent = record {
  name = "udp_director_bytes_sent_total";
  help = "Total bytes sent";
  kind = int_counter;
  labels = "destination" ∷ [];
  buckets = [];
}
declaration packet_size = record {
  name = "udp_director_packet_size_bytes";
  help = "Size of packets in bytes";
  kind = histogram;
  labels = "direction" ∷ [];
  buckets =
      64000 ∷ 128000 ∷ 256000 ∷ 512000 ∷ 1024000 ∷ 2048000 ∷ 4096000 ∷ 8192000 ∷ 16384000 ∷ [];
}
declaration query_requests = record {
  name = "udp_director_query_requests_total";
  help = "Total number of query requests";
  kind = int_counter;
  labels = "status" ∷ [];
  buckets = [];
}
declaration query_duration = record {
  name = "udp_director_query_duration_seconds";
  help = "Duration of query processing";
  kind = histogram;
  labels = "status" ∷ [];
  buckets = 1 ∷ 5 ∷ 10 ∷ 25 ∷ 50 ∷ 100 ∷ 250 ∷ 500 ∷ 1000 ∷ [];
}
declaration k8s_queries = record {
  name = "udp_director_k8s_queries_total";
  help = "Kubernetes API queries";
  kind = int_counter;
  labels = "resource_type" ∷ "status" ∷ [];
  buckets = [];
}
declaration k8s_query_duration = record {
  name = "udp_director_k8s_query_duration_seconds";
  help = "Duration of Kubernetes queries";
  kind = histogram;
  labels = "resource_type" ∷ [];
  buckets = 10 ∷ 50 ∷ 100 ∷ 250 ∷ 500 ∷ 1000 ∷ 2500 ∷ 5000 ∷ 10000 ∷ [];
}
declaration default_endpoint_available = record {
  name = "udp_director_default_endpoint_available";
  help = "Whether default endpoint is available (1=yes, 0=no)";
  kind = int_gauge;
  labels = [];
  buckets = [];
}
declaration available_resources = record {
  name = "udp_director_available_resources";
  help = "Number of available resources by type";
  kind = int_gauge;
  labels = "resource_type" ∷ "namespace" ∷ [];
  buckets = [];
}
declaration errors = record {
  name = "udp_director_errors_total";
  help = "Total errors by type";
  kind = int_counter;
  labels = "error_type" ∷ "component" ∷ [];
  buckets = [];
}
declaration session_age = record {
  name = "udp_director_session_age_seconds";
  help = "Age of active sessions in seconds";
  kind = gauge;
  labels = "client_addr" ∷ [];
  buckets = [];
}
declaration unique_clients = record {
  name = "udp_director_unique_clients";
  help = "Number of unique client addresses";
  kind = int_gauge;
  labels = [];
  buckets = [];
}
declaration uptime_seconds = record {
  name = "udp_director_uptime_seconds";
  help = "Server uptime in seconds";
  kind = gauge;
  labels = [];
  buckets = [];
}

-- The HTTP endpoint; `gather_metrics` is the library's text of what was recorded.
pub record Response : Type 0 where
  pub status : ℕ
  pub content_type : Option String
  pub body : String

unfoldable pub handle_request : String → String → Response
handle_request gather_metrics path =
    if path == "/metrics"
    then record {
      status = 200;
      content_type = some "text/plain; version=0.0.4";
      body = gather_metrics;
    }
    else if path == "/health"
    then record { status = 200; content_type = none; body = "OK" }
    else record { status = 404; content_type = none; body = "Not Found" }
