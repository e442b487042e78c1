-- ===== src/Kube/Ports.antt =====
-- k8s_client.rs: the ports that are extracted.
use udp_director.Prelude.{
  ℕ, ◌<◌, ◌^◌, ◌≡◌, inl, inr, String, Option, none, some, List, [], ◌∷◌, arith, string_eq, All,
  Option-cases,
}
use udp_director.Prelude.Maps.{Map, insert, All-insert}
use udp_director.Result.{ok}
use udp_director.Json.{Value, Number, null, bool, number, string, array, object}
use udp_director.Config.{PortMapping}
use udp_director.Result.{Result-cases}
use udp_director.Kube.{Resource}
use udp_director.Kube.Path.{extract_json_path}
use udp_director.Kube.Extract.{
  u16_of, port_of, find_port, status_ports, find_container_port, spec_containers, port_named,
  port_value, port_at, port_by, extract_port, extract_ports_into, extract_ports,
}

u16_of-bound : (o : Option ℕ) (p : ℕ) → u16_of o ≡ some p → p < 2 ^ 16
u16_of-bound none p h = absurd cc
u16_of-bound (some n) p h = ground (arith, h)

port_of-bound : (n : Number) (p : ℕ) → port_of n ≡ ok p → p < 2 ^ 16
port_of-bound n p h = elim (Option-cases (u16_of n.as_u64)) [
  | inl q ↦ absurd cc
  | inr (k, q) ↦ let same : k ≡ p = ground (arith, h, q) in u16_of-bound n.as_u64 p (rw (← same) q)
]

port_named-bound :
    (json : Value) (wanted : String) (p : ℕ) → port_named json wanted ≡ ok p → p < 2 ^ 16
unfolding port_named
port_named-bound json wanted p h =
    elim (Option-cases (find_port "port" wanted (status_ports json))) [
      | inr (n, q) ↦ port_of-bound n p (rw (port_named, q) at h)
      | inl q ↦ elim (Option-cases (find_container_port wanted (spec_containers json))) [
        | inr (n, r) ↦ port_of-bound n p (rw (port_named, q, r) at h)
        | inl r ↦ absurd cc
      ]
    ]

port_value-bound : (v : Value) (p : ℕ) → port_value v ≡ ok p → p < 2 ^ 16
port_value-bound null p h = absurd cc
port_value-bound (bool b) p h = absurd cc
port_value-bound (number n) p h = port_of-bound n p h
port_value-bound (string s) p h = absurd cc
port_value-bound (array vs) p h = absurd cc
port_value-bound (object fs) p h = absurd cc

port_at-bound : (json : Value) (path : String) (p : ℕ) → port_at json path ≡ ok p → p < 2 ^ 16
unfolding port_at
port_at-bound json path p h = elim (Result-cases (extract_json_path json path)) [
  | inr (inl (e, q)) ↦ absurd cc
  | inr (inr q) ↦ absurd cc
  | inl (none, q) ↦ absurd cc
  | inl (some v, q) ↦ port_value-bound v p (rw (port_at, q) at h)
]

port_by-bound :
    (json : Value) (path name : Option String) (p : ℕ) → port_by json path name ≡ ok p → p < 2 ^ 16
port_by-bound json path (some name) p h = port_named-bound json name p h
port_by-bound json (some path) none p h = port_at-bound json path p h
port_by-bound json none none p h = absurd cc

-- A port that is extracted is below 2^16, whatever numbers the resource has.
pub extract_port-bound :
    (r : Resource) (path name : Option String) (p : ℕ)
    → extract_port r path name ≡ ok p
    → p < 2 ^ 16
unfolding extract_port
extract_port-bound r path name p h = elim (Option-cases r.json) [
  | inl q ↦ absurd cc
  | inr (json, q) ↦ port_by-bound json path name p (ground (arith, h, q))
]

-- All the targets fit in 16 bits.
abbrev pub Fits {ℓ} : {K : Type ℓ} → Map K ℕ → Type 0
Fits m = All (λ entry. entry.1 < 2 ^ 16) m

extract_ports_into-Fits :
    (r : Resource) (mappings : List PortMapping) (before ports : Map String ℕ)
    → Fits before
    → extract_ports_into r mappings before ≡ ok ports
    → Fits ports
unfolding extract_ports_into
extract_ports_into-Fits r [] before ports fits h =
    let same : before ≡ ports = ground (arith, h) in rw (← same) fits
extract_ports_into-Fits r (m ∷ mappings) before ports fits h =
    elim (Result-cases (extract_port r m.port_path m.port_name)) [
      | inr (inl (e, q)) ↦ absurd cc
      | inr (inr q) ↦ absurd cc
      | inl (port, q) ↦
          extract_ports_into-Fits r mappings (insert m.name port before) ports
            (All-insert (λ entry. entry.1 < 2 ^ 16) m.name port before
              (extract_port-bound r m.port_path m.port_name port q) fits)
            (ground (arith, h, q))
    ]

pub extract_ports-Fits :
    (r : Resource) (mappings : List PortMapping) (ports : Map String ℕ)
    → extract_ports r mappings ≡ ok ports
    → Fits ports
unfolding extract_ports
extract_ports-Fits r mappings ports h = extract_ports_into-Fits r mappings [] ports tt h
