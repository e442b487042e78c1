-- ===== src/Session/Single.antt =====
-- session.rs: sessions with one port, as `Session::new` and `SessionManager::upsert` make them, and where
-- the packets of a session go: its target is written as text and parsed for each packet.
use Prim.Native.Char.{code}
use Prim.Native.String
use text.Mathlib.TextLemmas.{nil-append, cons-append, append_assoc}
use udp_director.Prelude.{
  ℕ, ◌^◌, ◌<◌, ◌≡◌, refl, ap, inl, inr, String, Option, none, List, [], ◌∷◌, nat_beq, nat_eq,
  pair_eq, Bool-cases, Option-cases,
}
use udp_director.Prelude.Maps.{insert, lookup, lookup-insert_self}
use udp_director.Result.{Error, ok, err, no_port_mapping, invalid_socket_address}
use udp_director.Text.{split, split_from}
use udp_director.Net.{
  IpAddr, v4, v6, SocketAddr, Protocol, udp, protocol_eq, show_ipv4, show_u16, host_and_port,
  parse_socket_v4, socket_addr,
}
use udp_director.Net.Numbers.{Without, split_from-at}
use udp_director.Net.RoundTrip.{socket_addr-show_ipv4}
use udp_director.Session.{legacy_ip, key_eq, Session, new_multi_port, get_target_addr}
use udp_director.Session.Manager.{Store, shutdown_entry, upsert_multi_port}

-- `IpAddr::to_string`: the standard library's text of an IPv6 address is an argument.
abbrev pub ip_text : (ℕ → String) → IpAddr → String
ip_text show_v6 (v4 n) = show_ipv4 n
ip_text show_v6 (v6 n) = show_v6 n

unfoldable pub new_session : (ℕ → String) → ℕ → SocketAddr → Session
new_session show_v6 now target = record {
  target_ip = ip_text show_v6 target.ip;
  port_mappings = insert (target.port, udp) target.port [];
  last_activity = now;
  udp_sockets = [];
}

unfoldable pub upsert : (ℕ → String) → ℕ → SocketAddr → SocketAddr → Store → Store
unfolding new_session
upsert show_v6 now client target st =
    let cleared = shutdown_entry (legacy_ip client.ip) st in
    record cleared {
      sessions = insert (legacy_ip client.ip) (new_session show_v6 now target) cleared.sessions;
    }

-- It is the operation for several ports with the one of the target.
pub upsert-lem :
    (show_v6 : ℕ → String) (now : ℕ) (client target : SocketAddr) (st : Store)
    → upsert show_v6 now client target st
      ≡ upsert_multi_port now client
          (ip_text show_v6 target.ip)
          (insert (target.port, udp) target.port [])
          st
unfolding upsert upsert_multi_port new_session new_multi_port
upsert-lem show_v6 now client target st = refl

get_target_addr-new_session :
    (parse_v6 : String → Option SocketAddr) (show_v6 : ℕ → String) (now n port : ℕ)
    → n < 2 ^ 32
    → port < 2 ^ 16
    → (let target : SocketAddr = record { ip = v4 n; port = port } in
        get_target_addr parse_v6 (new_session show_v6 now target) port udp ≡ ok target)
unfolding get_target_addr new_session
get_target_addr-new_session parse_v6 show_v6 now n port h small =
    let key : ℕ × Protocol = (port, udp) in
    rw
      (
        get_target_addr,
        lookup-insert_self key port [],
        socket_addr-show_ipv4 parse_v6 n port h small,
      )
      refl

-- A list of two items at least.
abbrev HasTwo : List String → Type 0
HasTwo parts = (a : String) × ((b : String) × ((rest : List String) × (parts ≡ a ∷ b ∷ rest)))

abbrev HasOne : List String → Type 0
HasOne parts = (a : String) × ((rest : List String) × (parts ≡ a ∷ rest))

split_from-HasOne : (sep : ℕ) (part s : String) → HasOne (split_from sep part s)
unfolding split_from
split_from-HasOne sep part String.[] = (part, ([], refl))
split_from-HasOne sep part (String.◌∷◌ c s) = elim (Bool-cases (nat_beq (code c) sep)) [
  | inl at ↦ (part, (split_from sep String.[] s, rw at refl))
  | inr off ↦
      let (a, (rest, q)) = split_from-HasOne sep (String.◌++◌ part (String.◌∷◌ c String.[])) s in
      (a, (rest, rw off q))
]

split_from-HasTwo :
    (part s rest : String) → HasTwo (split_from b':' part (String.◌++◌ s (String.◌∷◌ ":" rest)))
unfolding split_from
split_from-HasTwo part String.[] rest =
    let (a, (more, q)) = split_from-HasOne b':' String.[] rest in
    (part, (a, (more, rw (nil-append (String.◌∷◌ ":" rest)) (ap (◌∷◌ part) q))))
split_from-HasTwo part (String.◌∷◌ c s) rest = elim (Bool-cases (nat_beq (code c) b':')) [
  | inl at ↦
      let (a, (more, q)) = split_from-HasOne b':' String.[] (String.◌++◌ s (String.◌∷◌ ":" rest)) in
      (part, (a, (more, rw (cons-append c s (String.◌∷◌ ":" rest), at) (ap (◌∷◌ part) q))))
  | inr off ↦
      let (a, (b, (more, q))) =
        split_from-HasTwo (String.◌++◌ part (String.◌∷◌ c String.[])) s rest in
      (a, (b, (more, rw (cons-append c s (String.◌∷◌ ":" rest), off) q)))
]

host_and_port-HasTwo :
    (host : String) (parts : List String) → HasTwo parts → host_and_port (host ∷ parts) ≡ none
host_and_port-HasTwo host parts (a, (b, (rest, q))) = rw q refl

-- With a colon in the address the target is not the text of an IPv4 socket address.
colon-none :
    (before after port : String)
    → Without b':' before
    → parse_socket_v4
        (String.◌++◌ (String.◌++◌ before (String.◌∷◌ ":" after)) (String.◌∷◌ ":" port))
      ≡ none
unfolding parse_socket_v4 split
colon-none before after port h =
    rw
      (
        append_assoc before (String.◌∷◌ ":" after) (String.◌∷◌ ":" port),
        cons-append ":" after (String.◌∷◌ ":" port),
        split_from-at b':' ":" String.[] before (String.◌++◌ after (String.◌∷◌ ":" port)) refl h,
      )
      (host_and_port-HasTwo (String.◌++◌ String.[] before)
        (split_from b':' String.[] (String.◌++◌ after (String.◌∷◌ ":" port)))
        (split_from-HasTwo String.[] after port))

-- An IPv6 address is written with a colon behind a part without colons and brackets, and the standard
-- library takes an IPv6 socket address in brackets only.
abbrev pub IsV6Text : String → Type 0
IsV6Text text =
    (before : String) × ((after : String) × (text ≡ String.◌++◌ before (String.◌∷◌ ":" after))
      × Without b':' before
      × Without b'[' before)

abbrev pub NeedsBrackets : (String → Option SocketAddr) → Type 0
NeedsBrackets parse_v6 =
    (text port : String) → IsV6Text text → parse_v6 (String.◌++◌ text (String.◌++◌ ":" port)) ≡ none

socket_addr-IsV6Text :
    (parse_v6 : String → Option SocketAddr) (text : String) (port : ℕ)
    → NeedsBrackets parse_v6
    → IsV6Text text
    → socket_addr parse_v6 text port ≡ none
unfolding socket_addr
socket_addr-IsV6Text parse_v6 text port rejects (before, (after, is, h, bare)) =
    let colon : parse_socket_v4 (String.◌++◌ text (String.◌++◌ ":" (show_u16 port))) ≡ none =
      rw (is, cons-append ":" String.[] (show_u16 port), nil-append (show_u16 port))
        (colon-none before after (show_u16 port) h) in
    rw (socket_addr, colon) (rejects text (show_u16 port) (before, (after, is, h, bare)))

-- A session for an IPv4 address and a port sends to just these. A session whose target is the text of
-- an IPv6 address sends nowhere, on any port, if the parser takes such an address in brackets only.
pub get_target_addr-families :
    (parse_v6 : String → Option SocketAddr) (show_v6 : ℕ → String) (now n port : ℕ)
    → n < 2 ^ 32
    → port < 2 ^ 16
    → NeedsBrackets parse_v6
    → (let target : SocketAddr = record { ip = v4 n; port = port } in
        get_target_addr parse_v6 (new_session show_v6 now target) port udp ≡ ok target)
      × ((s : Session) (proxy_port : ℕ) (protocol : Protocol)
          → IsV6Text s.target_ip
          → (e : Error) × (get_target_addr parse_v6 s proxy_port protocol ≡ err e))
unfolding get_target_addr
get_target_addr-families parse_v6 show_v6 now n port h small rejects = (
  get_target_addr-new_session parse_v6 show_v6 now n port h small,
  λ s proxy_port protocol is. elim (Option-cases (lookup (proxy_port, protocol) s.port_mappings)) [
    | inl q ↦ (no_port_mapping, rw (get_target_addr, q) refl)
    | inr (target_port, q) ↦ (
      invalid_socket_address,
      rw (get_target_addr, q, socket_addr-IsV6Text parse_v6 s.target_ip target_port rejects is)
          refl,
    )
  ],
)
