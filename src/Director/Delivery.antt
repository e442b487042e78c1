-- ===== src/Director/Delivery.antt =====
-- query_server.rs and proxy.rs: from the answer of a query to the traffic of its client.
use udp_director.Prelude.{
  ℕ, ◌≡◌, refl, inl, inr, String, true, some, List, [], In, All, All-In, arith, nat_eq, string_eq,
  pair_eq, Option-cases,
}
use udp_director.Prelude.Maps.{Map, lookup, contains_key}
use udp_director.Result.{ok}
use udp_director.Net.{SocketAddr, ip_beq_iff, protocol_eq}
use udp_director.Config.{Config, DataPortConfig, ResourceMapping, get_data_ports}
use udp_director.Kube.Select.{ListCall}
use udp_director.Session.{new_multi_port}
use udp_director.Session.Manager.{get_by_addr, upsert_multi_port}
use udp_director.Session.Routes.{IsByIp, get_by_addr-upsert_multi_port}
use udp_director.Proxy.{Environment, ProxyState}
use udp_director.Query.{QueryRequest, success, Candidate}
use udp_director.Query.Given.{process_access-Given}
use udp_director.Query.Process.{Assignment, WaitEvent, done, process_access}
use udp_director.Query.Routing.{IsNamed, IsCovered, routes_for-IsNamed, routes_for-Covers}
use udp_director.Query.Targets.{Cluster, target_ports}
use udp_director.Proxy.Reach.{Reaches, new-Reaches}
use udp_director.Query.Placed.{IsPlaced, assign-IsPlaced}

pub record Delivery (cluster : Cluster) (config : Config) (client : SocketAddr) (server : String)
    (told : Map String ℕ) (env : Environment) (payload : List ℕ) (p : DataPortConfig)
    (st : ProxyState) : Type 0 where
  pub mapping : ResourceMapping
  pub chosen : Candidate
  pub identity : chosen.pod.uid ≡ some server
  pub name : String
  pub ip : String
  pub ports : Map String ℕ
  pub placed : target_ports cluster config chosen.resource mapping name ≡ ok (ip, ports)
  pub target : ℕ
  pub named : IsNamed ports (get_data_ports config) (p.port, p.protocol) target
  pub public : contains_key p.name told ≡ true
  pub reaches : Reaches env config client payload p.port ip target p.protocol st

module _ (cluster : Cluster) (config : Config) (client : SocketAddr) (clock source : ℕ)
    (env : Environment) (payload : List ℕ) (p : DataPortConfig) (st : ProxyState) where
  -- The state whose client has the session of an assignment.
  abbrev with_assigned : Assignment → ProxyState
  with_assigned given = record st {
    store = upsert_multi_port clock client given.ip given.routes st.store;
  }

  assigned-found :
      (given : Assignment)
      → All IsByIp st.store.sessions
      → get_by_addr (record client { port = source }) (with_assigned given).store
        ≡ some (new_multi_port clock given.ip given.routes)
  assigned-found given h =
      rw
        (
          get_by_addr-upsert_multi_port clock client (record client { port = source }) given.ip
              given.routes st.store h,
          (ip_beq_iff client.ip client.ip).1 refl,
        )
        refl

  assigned-Delivery :
      (mapping : ResourceMapping) (chosen : Candidate) (given : Assignment)
      → All IsByIp st.store.sessions
      → In p (get_data_ports config)
      → IsPlaced cluster config mapping chosen given
      → Delivery cluster config
          (record client { port = source })
          given.server
          given.public_ports
          env
          payload
          p
          (with_assigned given)
  unfolding lookup
  assigned-Delivery mapping chosen given h m (name, ports, placed, routed, identity) =
      elim (routes_for-Covers ports (get_data_ports config) [] []) [
        | inr (bad, _) ↦ absurd cc
        | inl (out, is, covered, _) ↦
            let same : out ≡ (given.routes, given.public_ports) = cc in
            let (routes, told) : IsCovered (given.routes, given.public_ports) p =
              rw same at (All-In _ p (get_data_ports config) covered m).1 in
            elim (Option-cases (lookup (p.port, p.protocol) given.routes)) [
              | inl q ↦ absurd (ground (arith, routes, q))
              | inr (target, q) ↦ record {
                mapping = mapping;
                chosen = chosen;
                identity = identity;
                name = name;
                ip = given.ip;
                ports = ports;
                placed = placed;
                target = target;
                named =
                    elim (routes_for-IsNamed ports (get_data_ports config) [] []
                      (given.routes, given.public_ports) (p.port, p.protocol) target routed q) [
                        | inl named ↦ named
                        | inr never ↦ absurd cc
                      ];
                public = told;
                reaches =
                    new-Reaches env config (record client { port = source }) payload p.port given.ip
                      target clock given.routes p.protocol (with_assigned given)
                      (assigned-found given h) q;
              }
            ]
      ]

-- Where the sessions stand under IP addresses only, a query that is answered with a server opens each
-- data port: the answer names the port and the identity of a Pod, and what the client then sends to it
-- from any of its ports, over UDP from a new socket or over TCP, goes to the address of that Pod's
-- resource and the port that it has under the name of a data port with this number and protocol, or
-- fails because the address does not parse or a socket fails.
pub allocated-Delivery :
    (cluster : Cluster) (config : Config) (client : SocketAddr) (clock source : ℕ)
    (request : QueryRequest) (list : ListCall) (events : List WaitEvent) (st : ProxyState)
    (text server : String) (told : Map String ℕ) (env : Environment) (payload : List ℕ)
    (p : DataPortConfig)
    → All IsByIp st.store.sessions
    → In p (get_data_ports config)
    → (process_access cluster config client clock request list events st.store).1
      ≡ done (ok (success text server told))
    → Delivery cluster config
        (record client { port = source })
        server
        told
        env
        payload
        p
        (record st {
          store = (process_access cluster config client clock request list events st.store).0;
        })
allocated-Delivery cluster config client clock source request list events st text server told env
      payload p h m answer =
    let (_, (mapping, _, _, (character, _, (_, _, chosen, _, _, given)))) =
      process_access-Given cluster config client clock request list events st.store text server told
        answer in
    let (a, is, same, public, store) = given in
    rw (← same, ← public, store)
      (assigned-Delivery cluster config client clock source env payload p st mapping chosen a h m
        (assign-IsPlaced cluster config mapping character chosen a is))
