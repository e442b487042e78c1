-- ===== src/Balancer/Counts.antt =====
-- load_balancer.rs: the laws of the session counts.
use udp_director.Prelude.{
  ◌+◌, ◌-◌, ◌%◌, ◌^◌, ◌<◌, ◌≡◌, String, arith, ◌==◌, string_eq, if◌then◌else◌, eq_iff,
}
use udp_director.Prelude.Maps.{lookup-insert, lookup-remove, lookup-adjust}
use udp_director.Balancer.{
  LoadBalancer, less_one, get_session_count, increment_session, decrement_session, clear_backend,
}

module _ (lb : LoadBalancer) (a b : String) where
  pub count-increment :
      get_session_count (increment_session lb a) b
      ≡ (if a == b then (get_session_count lb a + 1) % 2 ^ 64 else get_session_count lb b)
  unfolding increment_session
  count-increment =
      ground (arith, lookup-insert a b ((get_session_count lb a + 1) % 2 ^ 64) lb.session_counts)

  pub count-decrement :
      get_session_count (decrement_session lb a) b
      ≡ (if a == b then get_session_count lb a - 1 else get_session_count lb b)
  unfolding decrement_session get_session_count
  count-decrement = ground (arith, lookup-adjust a b less_one lb.session_counts, eq_iff a b)

  pub count-clear :
      get_session_count (clear_backend lb a) b ≡ (if a == b then 0 else get_session_count lb b)
  unfolding clear_backend get_session_count
  count-clear = ground (arith, lookup-remove a b lb.session_counts)

-- Counting a session and releasing it leaves every backend's count as it was, where the count of the
-- backend is below the limit.
pub decrement-increment :
    (lb : LoadBalancer) (a b : String)
    → get_session_count lb a + 1 < 2 ^ 64
    → get_session_count (decrement_session (increment_session lb a) a) b ≡ get_session_count lb b
decrement-increment lb a b h = ground (
  arith,
  count-decrement (increment_session lb a) a b,
  count-increment lb a b,
  count-increment lb a a,
  eq_iff a b,
  eq_iff a a,
)
