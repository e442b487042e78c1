-- ===== src/Proxy/Establish.antt =====
-- proxy.rs: `establish_default_session`, which installs and counts a session or changes neither the
-- sessions nor the counts.
use udp_director.Prelude.{
  ℕ, String, ◌≡◌, ◌≢◌, refl, ◌⊎◌, inl, inr, true, false, some, nat_eq, pair_eq, Bool-cases,
  Option-cases,
}
use udp_director.Result.{Result, ok, err, panic}
use udp_director.Net.{SocketAddr, Protocol, protocol_eq}
use udp_director.Config.{Config}
use udp_director.Balancer.{increment_session}
use udp_director.Session.{PortMappings}
use udp_director.Session.Manager.{upsert_multi_port}
use udp_director.Proxy.{
  DefaultEndpointCache, ProxyState, Environment, query_default_endpoint, install, supports,
  install_if_supported, with_cached, with_answer, establish_default_session,
}

abbrev pub Step : Type 0
Step = ProxyState × Result (Unit {0})

module _ (env : Environment) (client : SocketAddr) (port : ℕ) (protocol : Protocol) where
  -- A session of the client for this endpoint, which serves the port, was installed and counted.
  abbrev pub Installed : ProxyState → ProxyState → String × PortMappings → Type 0
  Installed st st' (address, mappings) =
      (supports port protocol mappings ≡ true)
      × (st'.store ≡ upsert_multi_port env.now client address mappings st.store)
      × (st'.balancer ≡ increment_session st.balancer address)

  abbrev pub IsUntouched : ProxyState → ProxyState → Type 0
  IsUntouched st st' = (st'.store ≡ st.store) × (st'.balancer ≡ st.balancer)

  abbrev pub EndsWell : ProxyState → Step → Type 0
  EndsWell st (st', r) =
      ((r ≡ ok tt) × ((e : String × PortMappings) × Installed st st' e))
      ⊎ ((r ≢ ok tt) × IsUntouched st st')

  module _ (config : Config) where
    install_if_supported-EndsWell :
        (address : String) (mappings : PortMappings) (st : ProxyState)
        → EndsWell st (install_if_supported env config client port protocol address mappings st)
    unfolding install_if_supported install
    install_if_supported-EndsWell address mappings st =
        elim (Bool-cases (supports port protocol mappings)) [
          | inl has ↦ rw has (inl (refl, ((address, mappings), (has, refl, refl))))
          | inr lacks ↦ rw lacks (inr ((λ h. cc), (refl, refl)))
        ]

    with_answer-EndsWell :
        (answer : Result (String × PortMappings)) (st : ProxyState)
        → EndsWell st (with_answer env config client port protocol answer st)
    unfolding with_answer
    with_answer-EndsWell (ok (address, mappings)) st =
        install_if_supported-EndsWell address mappings
          (record st { cache = some (record { address = address; port_mappings = mappings }) })
    with_answer-EndsWell (err e) st = inr ((λ h. cc), (refl, refl))
    with_answer-EndsWell panic st = inr ((λ h. cc), (refl, refl))

    without_port-EndsWell :
        (answer : Result (String × PortMappings)) (cache : DefaultEndpointCache) (st : ProxyState)
        → supports port protocol cache.port_mappings ≡ false
        → EndsWell st (with_cached env config client port protocol cache answer st)
    unfolding with_cached
    without_port-EndsWell (ok (address, mappings)) cache st lacks =
        rw (with_cached, lacks) (install_if_supported-EndsWell address mappings st)
    without_port-EndsWell (err e) cache st lacks =
        rw (with_cached, lacks) (inr ((λ h. cc), (refl, refl)))
    without_port-EndsWell panic cache st lacks =
        rw (with_cached, lacks) (inr ((λ h. cc), (refl, refl)))

    with_cached-EndsWell :
        (answer : Result (String × PortMappings)) (cache : DefaultEndpointCache) (st : ProxyState)
        → EndsWell st (with_cached env config client port protocol cache answer st)
    unfolding with_cached install
    with_cached-EndsWell answer cache st =
        elim (Bool-cases (supports port protocol cache.port_mappings)) [
          | inl has ↦
              rw (with_cached, has)
                (inl (refl, ((cache.address, cache.port_mappings), (has, refl, refl))))
          | inr lacks ↦ without_port-EndsWell answer cache st lacks
        ]

-- Either a session of the client for an endpoint that serves the port is installed and counted once,
-- or an error or a panic is the result and sessions, sockets and counts are unchanged.
pub establish_default_session-EndsWell :
    (env : Environment) (config : Config) (client : SocketAddr) (port : ℕ) (protocol : Protocol)
    (st : ProxyState)
    → EndsWell env client port protocol st
        (establish_default_session env config client port protocol st)
unfolding establish_default_session
establish_default_session-EndsWell env config client port protocol st =
    elim (Option-cases st.cache) [
      | inl q ↦
          rw (establish_default_session, q)
            (with_answer-EndsWell env client port protocol config
              (query_default_endpoint env.list config st.balancer) st)
      | inr (cache, q) ↦
          rw (establish_default_session, q)
            (with_cached-EndsWell env client port protocol config
              (query_default_endpoint env.list config st.balancer) cache st)
    ]
