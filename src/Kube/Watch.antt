-- ===== src/Kube/Watch.antt =====
-- k8s_client.rs: `wait_for_pod_change`, over the answers of the watch.
use udp_director.Prelude.{ℕ, String, not, List, [], ◌∷◌, ◌==◌, nat_eq, if◌then◌else◌}
use udp_director.Text.{is_empty}
use udp_director.Result.{Result, ok, err, ◌>>◌, ensure, no_list_version, watch_failed}

-- `WatchEvent`: what is added, modified or deleted, a bookmark, or an error with its code; and a
-- failure of the stream itself.
pub data WatchEvent : Type 0 where
  changed bookmark broken : WatchEvent
  error : ℕ → WatchEvent

-- How the request for the watch ends; the events end where the server closes the stream.
pub data WatchStart : Type 0 where
  opened : List WatchEvent → WatchStart
  refused : ℕ → WatchStart
  unreachable : WatchStart

unfoldable pub await_change : List WatchEvent → Result (Unit {0})
await_change [] = ok tt
await_change (bookmark ∷ events) = await_change events
await_change (changed ∷ events) = ok tt
await_change (broken ∷ events) = err watch_failed
await_change (error code ∷ events) = if code == 410 then ok tt else err watch_failed

unfoldable pub watched : WatchStart → Result (Unit {0})
unfolding await_change
watched (opened events) = await_change events
watched (refused code) = if code == 410 then ok tt else err watch_failed
watched unreachable = err watch_failed

unfoldable pub wait_for_pod_change : String → WatchStart → Result (Unit {0})
unfolding watched
wait_for_pod_change version start = do
  ensure (not (is_empty version)) no_list_version
  watched start
