-- ===== src/Balancer/Order.antt =====
-- load_balancer.rs: the orders by which the backends are sorted.
use udp_director.Prelude.{◌≡◌, Bool, true, false, arith, leb, IsOrder}
use udp_director.Prelude.Int.{◌≤ℤ◌}
use udp_director.Balancer.{Backend, Candidate, candidate_leb}

abbrev pub fewer_sessions : Backend → Backend → Bool
fewer_sessions a b = leb a.session_count b.session_count

pub fewer_sessions-IsOrder : IsOrder fewer_sessions
fewer_sessions-IsOrder = record { total = λ a b h. ground arith; trans = λ a b c h k. ground arith }

-- `a` comes before `b`, or stands level with it.
abbrev pub Precedes : Candidate → Candidate → Type 0
Precedes a b = (b.available ≤ℤ a.available) × (a.available ≤ℤ b.available → a.current ≤ℤ b.current)

pub candidate_leb→ : (a b : Candidate) → candidate_leb a b ≡ true → Precedes a b
candidate_leb→ a b h = ground arith

candidate_leb-total : (a b : Candidate) → candidate_leb a b ≡ false → candidate_leb b a ≡ true
candidate_leb-total a b h = ground arith

candidate_leb_trans :
    (a b c : Candidate)
    → candidate_leb a b ≡ true
    → candidate_leb b c ≡ true
    → candidate_leb a c ≡ true
candidate_leb_trans a b c h k = ground arith

pub candidate_leb-IsOrder : IsOrder candidate_leb
candidate_leb-IsOrder = record { total = candidate_leb-total; trans = candidate_leb_trans }
