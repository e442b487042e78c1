-- ===== src/Tasks/Alone.antt =====
-- proxy.rs: the actions of a handler that no other task interrupts, up to the session that it goes on
-- with.
pub mod Handlers
use udp_director.Prelude.{
  ℕ, zero, suc, ◌+◌, ◌≤◌, arith, ◌≡◌, refl, ap, ◌∙◌, inl, inr, String, Bool, true, false, Option,
  none, some, List, Bool-cases, Option-cases, is_some, nat_eq, pair_eq,
}
use udp_director.Result.{Result, Result-cases, ok, err, panic, port_not_supported, connect_failed}
use udp_director.Net.{SocketAddr, Protocol, protocol_eq, udp, tcp}
use udp_director.Config.{Config}
use udp_director.Session.{PortMappings}
use udp_director.Session.Manager.{Store, get_by_addr, upsert_multi_port}
use udp_director.Proxy.{
  Environment, ProxyState, DefaultEndpointCache, Sent, supports, query_default_endpoint, install,
  install_if_supported, with_cached, with_answer, establish_default_session,
  proxy_packet_bidirectional, touched, with_store, then_send, handle_first_packet,
  handle_udp_data_packet, tcp_target, join, then_join, handle_tcp_connection,
}
use udp_director.Tasks.{
  Job, packet, connection, assignment, Outcome, sent, joined, failed, panicked, Stage, looking,
  choosing, asking, caching, stopping, inserting, counting, forwarding, joining, connecting,
  touching, finished, protocol_of, payload_of, with_session, after_insert, advance, checked,
  answered, chosen, forwarded, targeted,
}

module _ (env : Environment) (config : Config) (client : SocketAddr) (port : ℕ) (job : Job) where
  -- Some actions of the task in a row.
  unfoldable pub run_alone : ℕ → Stage → ProxyState → ProxyState × Stage
  run_alone zero stage st = (st, stage)
  run_alone (suc n) stage st =
      let (st', stage') = advance env config client port job stage st in run_alone n stage' st'

  pub run_alone-finished :
      (n : ℕ) (outcome : Outcome) (st : ProxyState)
      → run_alone n (finished outcome) st ≡ (st, finished outcome)
  unfolding run_alone advance
  run_alone-finished zero outcome st = refl
  run_alone-finished (suc n) outcome st = run_alone-finished n outcome st

  -- What the task does with its session, known to end in so many actions.
  module _ (k : ℕ) (rest : ProxyState → ProxyState × Stage)
      (ends : (n : ℕ) (st : ProxyState) → k ≤ n → run_alone n (with_session false job) st ≡ rest st)
      (installs : (address : String) → after_insert address job ≡ counting address) where
    abbrev pub then_rest : ProxyState × Result (Unit {0}) → ProxyState × Stage
    then_rest (st, ok _) = rest st
    then_rest (st, err e) = (st, finished (failed e))
    then_rest (st, panic) = (st, finished panicked)

    stopping-alone :
        (n : ℕ) (address : String) (mappings : PortMappings) (st : ProxyState)
        → k ≤ n
        → run_alone (suc (suc (suc n))) (stopping address mappings) st
          ≡ rest (install env.now client address mappings st)
    unfolding run_alone advance install upsert_multi_port
    stopping-alone n address mappings st le =
        rw installs (ends n (install env.now client address mappings st) le)

    checked-alone :
        (n : ℕ) (address : String) (mappings : PortMappings) (st : ProxyState)
        → k ≤ n
        → run_alone (suc (suc (suc n))) (checked env config client port job address mappings) st
          ≡ then_rest
              (install_if_supported env config client port (protocol_of job) address mappings st)
    unfolding install_if_supported
    checked-alone n address mappings st le =
        elim (Bool-cases (supports port (protocol_of job) mappings)) [
          | inl has ↦ rw has (stopping-alone n address mappings st le)
          | inr lacks ↦
              rw lacks (run_alone-finished (suc (suc (suc n))) (failed port_not_supported) st)
        ]

    -- With the cached endpoint, or with an answer where it lacks the port.
    cached-alone :
        (n : ℕ) (cache : DefaultEndpointCache) (st : ProxyState)
        → k ≤ n
        → run_alone
            (suc (suc (suc (suc (suc n)))))
            (chosen env config client port job (some cache))
            st
          ≡ then_rest (
              with_cached env config client port
                (protocol_of job)
                cache
                (query_default_endpoint env.list config st.balancer)
                st)
    unfolding run_alone advance with_cached
    cached-alone n cache st le =
        elim (Bool-cases (supports port (protocol_of job) cache.port_mappings)) [
          | inl has ↦
              rw has
                (stopping-alone (suc (suc n)) cache.address cache.port_mappings st (omega arith))
          | inr lacks ↦ elim (Result-cases (query_default_endpoint env.list config st.balancer)) [
            | inl ((address, mappings), answer) ↦
                rw (lacks, answer) (checked-alone (suc n) address mappings st (omega arith))
            | inr (inl (e, answer)) ↦
                rw (lacks, answer) (run_alone-finished (suc (suc (suc (suc n)))) (failed e) st)
            | inr (inr answer) ↦
                rw (lacks, answer) (run_alone-finished (suc (suc (suc (suc n)))) panicked st)
          ]
        ]

    -- Without a cached endpoint.
    fresh-alone :
        (n : ℕ) (st : ProxyState)
        → k ≤ n
        → run_alone (suc (suc (suc (suc (suc n))))) (asking true) st
          ≡ then_rest (
              with_answer env config client port
                (protocol_of job)
                (query_default_endpoint env.list config st.balancer)
                st)
    unfolding run_alone advance with_answer
    fresh-alone n st le = elim (Result-cases (query_default_endpoint env.list config st.balancer)) [
      | inl ((address, mappings), answer) ↦ rw answer (
          checked-alone n address mappings
            (record st { cache = some (record { address = address; port_mappings = mappings }) })
            le)
      | inr (inl (e, answer)) ↦
          rw answer (run_alone-finished (suc (suc (suc (suc n)))) (failed e) st)
      | inr (inr answer) ↦ rw answer (run_alone-finished (suc (suc (suc (suc n)))) panicked st)
    ]

    abbrev established : Option DefaultEndpointCache → ProxyState → ProxyState × Result (Unit {0})
    established none st =
        with_answer env config client port (protocol_of job)
          (query_default_endpoint env.list config st.balancer) st
    established (some cache) st =
        with_cached env config client port (protocol_of job) cache
          (query_default_endpoint env.list config st.balancer) st

    chosen-alone :
        (n : ℕ) (cache : Option DefaultEndpointCache) (st : ProxyState)
        → k ≤ n
        → run_alone (suc (suc (suc (suc (suc n))))) (chosen env config client port job cache) st
          ≡ then_rest (established cache st)
    chosen-alone n none st le = fresh-alone n st le
    chosen-alone n (some cache) st le = cached-alone n cache st le

    established-is :
        (st : ProxyState)
        → established st.cache st
          ≡ establish_default_session env config client port (protocol_of job) st
    unfolding establish_default_session
    established-is st = elim (Option-cases st.cache) [
      | inl q ↦ simp (establish_default_session, q) refl
      | inr (cache, q) ↦ simp (establish_default_session, q) refl
    ]

    pub choosing-alone :
        (n : ℕ) (st : ProxyState)
        → k ≤ n
        → run_alone (suc (suc (suc (suc (suc (suc n)))))) choosing st
          ≡ then_rest (establish_default_session env config client port (protocol_of job) st)
    unfolding run_alone advance
    choosing-alone n st le = chosen-alone n st.cache st le ∙ ap then_rest (established-is st)
