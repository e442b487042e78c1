-- ===== src/Director/Counts.antt =====
-- main.rs: what becomes of the counts of sessions while the program runs.
use udp_director.Prelude.{
  ℕ, suc, ◌+◌, ◌%◌, ◌^◌, ◌≤◌, ◌≡◌, refl, ◌∙◌, inl, inr, String, List, [], ◌∷◌, ◌++◌, arith, length,
  ◌==◌, string_eq, if◌then◌else◌, eq_iff, length-append,
}
use udp_director.Config.{Config, get_load_balancing}
use udp_director.Balancer.{LoadBalancer, new, get_session_count}
use udp_director.Balancer.Counts.{count-increment}
use udp_director.Proxy.Handlers.{CountsOneAtMost}
use udp_director.Director.{Director, Event, start, step, run}
use udp_director.Director.Runs.{IsSteady, start-IsSteady, step-Moves, run-IsSteady}

-- How often an address is counted in a list of them.
unfoldable pub occurrences : String → List String → ℕ
occurrences b [] = 0
occurrences b (a ∷ rest) = if a == b then suc (occurrences b rest) else occurrences b rest

-- One balancer has the counts of another and one more for each of the addresses.
abbrev pub Adds : List String → LoadBalancer → LoadBalancer → Type 0
Adds added lb lb' =
    (b : String)
    → get_session_count lb' b % 2 ^ 64 ≡ (get_session_count lb b + occurrences b added) % 2 ^ 64

Adds-one :
    (lb lb' : LoadBalancer)
    → CountsOneAtMost lb lb'
    → (added : List String) × (length added ≤ 1) × Adds added lb lb'
unfolding occurrences
Adds-one lb lb' (inl same) = ([], omega arith, λ b. rw same (omega arith))
Adds-one lb lb' (inr (a, one)) =
    (a ∷ [], omega arith, λ b. rw one (ground (arith, count-increment lb a b, eq_iff a b)))

occurrences-append :
    (b : String) (xs ys : List String)
    → occurrences b (xs ++ ys) ≡ occurrences b xs + occurrences b ys
unfolding occurrences
occurrences-append b [] ys = omega arith
occurrences-append b (x ∷ xs) ys = ground (arith, occurrences-append b xs ys)

Adds-trans :
    (xs ys : List String) (a b c : LoadBalancer) → Adds xs a b → Adds ys b c → Adds (xs ++ ys) a c
Adds-trans xs ys a b c f g address =
    omega (arith, f address, g address, occurrences-append address xs ys)

run-Adds :
    (d : Director) (events : List Event)
    → IsSteady d
    → ((run d events).load_balancer ≡ d.load_balancer)
      × ((added : List String) × (length added ≤ length events)
          × Adds added d.proxy.balancer (run d events).proxy.balancer)
unfolding run occurrences
run-Adds d [] h = (refl, ([], omega arith, λ b. omega arith))
run-Adds d (e ∷ events) h =
    let (steady, same, counts) = step-Moves d e h in
    let (one, few, adds) = Adds-one d.proxy.balancer (step d e).proxy.balancer counts in
    let (same', (more, few', adds')) = run-Adds (step d e) events steady in
    (
      same' ∙ same,
      (
        one ++ more,
        omega (arith, few, few', length-append one more),
        Adds-trans one more d.proxy.balancer (step d e).proxy.balancer
            (run (step d e) events).proxy.balancer adds adds',
      ),
    )

run-append : (d : Director) (xs ys : List Event) → run d (xs ++ ys) ≡ run (run d xs) ys
unfolding run
run-append d [] ys = refl
run-append d (x ∷ xs) ys = run-append (step d x) xs ys

-- In every run the counts that the proxy balances by grow, modulo 2^64, by one for each of at most as
-- many addresses as there are events, whatever times out, and the balancer of the cleanup callback
-- stays as it was created.
pub run-never_released :
    (config : Config) (before after : List Event)
    → ((run (start config) (before ++ after)).load_balancer
        ≡ new (get_load_balancing config).strategy)
      × ((added : List String) × (length added ≤ length after)
          × Adds added
              (run (start config) before).proxy.balancer
              (run (start config) (before ++ after)).proxy.balancer)
unfolding start
run-never_released config before after =
    let first = run-Adds (start config) before (start-IsSteady config) in
    let steady = run-IsSteady (start config) before (start-IsSteady config) in
    let second = run-Adds (run (start config) before) after steady in
    rw (run-append (start config) before after) (second.0 ∙ first.0, second.1)
