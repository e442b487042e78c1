-- ===== src/Tasks/Alone/Handlers.antt =====
-- proxy.rs: the actions of a handler that no other task interrupts, and the handler as one step.
use udp_director.Prelude.{
  ℕ, zero, suc, ◌≤◌, arith, ◌≡◌, refl, ◌∙◌, inl, inr, true, false, List, Bool-cases, is_some,
  nat_eq, pair_eq,
}
use udp_director.Result.{Result, ok, err, panic, connect_failed}
use udp_director.Net.{SocketAddr, protocol_eq, udp, tcp}
use udp_director.Config.{Config}
use udp_director.Session.Manager.{Store, get_by_addr}
use udp_director.Proxy.{
  Environment, ProxyState, Sent, establish_default_session, proxy_packet_bidirectional, touched,
  with_store, then_send, handle_first_packet, handle_udp_data_packet, tcp_target, join, then_join,
  handle_tcp_connection,
}
use udp_director.Tasks.{
  packet, connection, Outcome, sent, joined, failed, panicked, Stage, looking, forwarding, joining,
  finished, advance, forwarded, targeted,
}
use udp_director.Tasks.Alone.{run_alone, run_alone-finished, then_rest, choosing-alone}

-- The stage in which a handler's result leaves its task.
abbrev pub ended {ℓ} : {A : Type ℓ} → (A → Outcome) → ProxyState × Result A → ProxyState × Stage
ended outcome (st, ok a) = (st, finished (outcome a))
ended outcome (st, err e) = (st, finished (failed e))
ended outcome (st, panic) = (st, finished panicked)

module _ (env : Environment) (config : Config) (client : SocketAddr) (port : ℕ)
    (payload : List ℕ) where
  after_first :
      (n : ℕ) (st : ProxyState) (r : Store × Result Sent)
      → run_alone env config client port
          (packet payload)
          n
          (forwarded env config client port (packet payload) false r.1)
          (record st { store = r.0 })
        ≡ ended sent (with_store env client payload port st r)
  after_first n st (store, ok s) =
      run_alone-finished env config client port (packet payload) n (sent s) _
  after_first n st (store, err e) =
      run_alone-finished env config client port (packet payload) n (failed e) _
  after_first n st (store, panic) =
      run_alone-finished env config client port (packet payload) n panicked _

  after_known :
      (n : ℕ) (st : ProxyState) (r : Store × Result Sent)
      → run_alone env config client port
          (packet payload)
          (suc n)
          (forwarded env config client port (packet payload) true r.1)
          (record st { store = r.0 })
        ≡ ended sent (with_store env client payload port st (touched env client payload port r))
  unfolding run_alone advance
  after_known n st (store, ok s) =
      run_alone-finished env config client port (packet payload) n (sent s) _
  after_known n st (store, err e) =
      run_alone-finished env config client port (packet payload) n (failed e) _
  after_known n st (store, panic) =
      run_alone-finished env config client port (packet payload) n panicked _

  forwarding_first :
      (n : ℕ) (st : ProxyState)
      → 1 ≤ n
      → run_alone env config client port (packet payload) n (forwarding false) st
        ≡ ended sent (
            with_store env client payload port st
              (proxy_packet_bidirectional env client payload port st.store))
  unfolding run_alone advance
  forwarding_first zero st le = absurd (omega (arith, le))
  forwarding_first (suc n) st le =
      after_first n st (proxy_packet_bidirectional env client payload port st.store)

  then_send-ended :
      (r : ProxyState × Result (Unit {0}))
      → then_rest env config client port
          (packet payload)
          1
          (λ st. ended sent (
            with_store env client payload port st
              (proxy_packet_bidirectional env client payload port st.store)))
          forwarding_first
          (λ _. refl)
          r
        ≡ ended sent (then_send env client payload port r)
  then_send-ended (st, ok _) = refl
  then_send-ended (st, err e) = refl
  then_send-ended (st, panic) = refl

packet-run_alone :
    (env : Environment) (config : Config) (client : SocketAddr) (port : ℕ) (payload : List ℕ)
    (st : ProxyState)
    → run_alone env config client port (packet payload) 10 looking st
      ≡ ended sent (handle_udp_data_packet env client payload port config st)
unfolding run_alone advance handle_udp_data_packet handle_first_packet
packet-run_alone env config client port payload st =
    elim (Bool-cases (is_some (get_by_addr client st.store))) [
      | inl has ↦
          rw (handle_udp_data_packet, has)
            (after_known env config client port payload 7 st
              (proxy_packet_bidirectional env client payload port st.store))
      | inr lacks ↦
          rw (handle_udp_data_packet, lacks)
            (choosing-alone env config client port (packet payload) 1
                (λ st. ended sent (
                  with_store env client payload port st
                    (proxy_packet_bidirectional env client payload port st.store)))
                (forwarding_first env config client port payload) (λ _. refl) 3 st (omega arith)
              ∙ then_send-ended env config client port payload
                  (establish_default_session env config client port udp st))
    ]

module _ (env : Environment) (config : Config) (client : SocketAddr) (port : ℕ)
    (closed : env.closed ≡ true) where
  after_joining :
      (n : ℕ) (target : Result SocketAddr) (st : ProxyState)
      → run_alone env config client port connection
          (suc (suc (suc n)))
          (targeted env config client port connection target)
          st
        ≡ ended joined (join env client port target st)
  unfolding run_alone advance
  after_joining n (ok target) st = elim (Bool-cases env.connected) [
    | inl up ↦
        rw (up, closed) (run_alone-finished env config client port connection n (joined target) _)
    | inr down ↦ rw down (
        run_alone-finished env config client port connection (suc (suc n)) (failed connect_failed)
          st)
  ]
  after_joining n (err e) st =
      run_alone-finished env config client port connection (suc (suc (suc n))) (failed e) st
  after_joining n panic st =
      run_alone-finished env config client port connection (suc (suc (suc n))) panicked st

  joining-alone :
      (n : ℕ) (st : ProxyState)
      → 4 ≤ n
      → run_alone env config client port connection n joining st
        ≡ ended joined
            (join env client port (tcp_target env client port (get_by_addr client st.store)) st)
  unfolding run_alone advance
  joining-alone zero st le = absurd (omega (arith, le))
  joining-alone (suc zero) st le = absurd (omega (arith, le))
  joining-alone (suc (suc zero)) st le = absurd (omega (arith, le))
  joining-alone (suc (suc (suc zero))) st le = absurd (omega (arith, le))
  joining-alone (suc (suc (suc (suc n)))) st le =
      after_joining n (tcp_target env client port (get_by_addr client st.store)) st

  then_join-ended :
      (r : ProxyState × Result (Unit {0}))
      → then_rest env config client port connection 4
          (λ st.
            ended joined
              (join env client port (tcp_target env client port (get_by_addr client st.store)) st))
          joining-alone
          (λ _. refl)
          r
        ≡ ended joined (then_join env client port r)
  then_join-ended (st, ok _) = refl
  then_join-ended (st, err e) = refl
  then_join-ended (st, panic) = refl

connection-run_alone :
    (env : Environment) (config : Config) (client : SocketAddr) (port : ℕ) (st : ProxyState)
    → env.closed ≡ true
    → run_alone env config client port connection 11 looking st
      ≡ ended joined (handle_tcp_connection env client port config st)
unfolding run_alone advance handle_tcp_connection
connection-run_alone env config client port st closed =
    elim (Bool-cases (is_some (get_by_addr client st.store))) [
      | inl has ↦
          rw (handle_tcp_connection, has)
            (joining-alone env config client port closed 10 st (omega arith))
      | inr lacks ↦
          rw (handle_tcp_connection, lacks)
            (choosing-alone env config client port connection 4
                (λ st. ended joined (
                  join env client port (tcp_target env client port (get_by_addr client st.store))
                    st))
                (joining-alone env config client port closed) (λ _. refl) 4 st (omega arith)
              ∙ then_join-ended env config client port closed
                  (establish_default_session env config client port tcp st))
    ]

-- Ten actions of the task of a UDP packet, and eleven of the task of a TCP connection that its peers
-- close, with no action of another task in between, end it, and do to the shared state and give what the
-- handler as one step does and gives.
pub handlers-run_alone :
    (env : Environment) (config : Config) (client : SocketAddr) (port : ℕ) (payload : List ℕ)
    (st : ProxyState)
    → env.closed ≡ true
    → (run_alone env config client port (packet payload) 10 looking st
        ≡ ended sent (handle_udp_data_packet env client payload port config st))
      × (run_alone env config client port connection 11 looking st
          ≡ ended joined (handle_tcp_connection env client port config st))
handlers-run_alone env config client port payload st closed = (
  packet-run_alone env config client port payload st,
  connection-run_alone env config client port st closed,
)
