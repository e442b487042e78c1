-- ===== src/Query/Tests/Waits.antt =====
-- query_server.rs: a query that waits for capacity in vain.
use udp_director.Demand.{CapacityDemand}
use udp_director.Prelude.{
  ◌≡◌, refl, List, [], ◌∷◌, any, all, sort_by, retain, string_eq, some, none, ◌++◌,
}
use udp_director.Prelude.Maps.{lookup, insert}
use udp_director.Result.{timeout}
use udp_director.Text.{as_bytes}
use udp_director.Config.{Config}
use udp_director.Kube.Select.{query_resources_snapshot, api_resource, selector_text}
use udp_director.Characters.Ids.{valid_character_id}
use udp_director.Query.{access_of, has_invalid, candidates_from, eligible}
use udp_director.Query.Process.{
  WaitEvent, disconnect, deadline, answered, waiting, wait_result, process_access, read_snapshot,
  eligible_at, select_loop,
}
use udp_director.Query.Ending.{EndsBy, process_access-EndsBy}
use udp_director.Kube.Watch.{opened, changed, wait_for_pod_change, watched, await_change}
use udp_director.Kube.Select.{ListCall}
use udp_director.Samples.{cluster, config, alice, second, request}
use udp_director.Query.Tests.{empty}

-- No Pod is there, and a demand brings none.
abbrev demanding : Config
demanding = record config {
  capacity_demand = some (record {
    endpoint = "http://capacity/demand";
    backend_groups = [];
    boot_timeout_seconds = 60;
  });
}

abbrev nobody : ListCall
nobody namespace resource labels = some (record { items = []; resource_version = some "7" })

abbrev in_vain : List WaitEvent
in_vain = answered none (opened (changed ∷ [])) nobody second ∷ []

still_waiting :
    process_access cluster demanding alice second request nobody in_vain empty ≡ (empty, waiting)
unfolding process_access access_of has_invalid valid_character_id lookup read_snapshot
    query_resources_snapshot api_resource selector_text insert eligible_at candidates_from
    select_loop wait_result wait_for_pod_change watched await_change as_bytes all any eligible
    sort_by retain
still_waiting = refl

process_access-EndsBy_example :
    EndsBy empty timeout
      (process_access cluster demanding alice second request nobody in_vain empty)
      (process_access cluster demanding alice second request nobody
        (in_vain ++ deadline ∷ disconnect ∷ [])
        empty)
process_access-EndsBy_example =
    process_access-EndsBy cluster demanding alice second request nobody in_vain (disconnect ∷ [])
      deadline timeout empty refl

abbrev no_flights : CapacityDemand
no_flights = record { flights = []; started = [] }
