-- ===== src/Query/Rank.antt =====
-- query_server.rs: the order in which a query prefers the candidates, and the first of them.
use udp_director.Prelude.{
  ◌≡◌, refl, String, true, false, not, Option, none, some, List, ◌∷◌, arith, In, In-retain→,
  In-retain←, retain, IsOrder, sort_by-least,
}
use udp_director.Text.Laws.{str_leb-IsOrder}
use udp_director.Config.{Config}
use udp_director.Kube.{pod_draining}
use udp_director.Query.{Candidate, uid_leb, has_room, candidate_leb, eligible}

uid_leb_total : (a b : Option String) → uid_leb a b ≡ false → uid_leb b a ≡ true
uid_leb_total none b h = cc
uid_leb_total (some a) none h = refl
uid_leb_total (some a) (some b) h = str_leb-IsOrder.total a b h

uid_leb_trans :
    (a b c : Option String) → uid_leb a b ≡ true → uid_leb b c ≡ true → uid_leb a c ≡ true
uid_leb_trans none b c h k = refl
uid_leb_trans (some a) none c h k = cc
uid_leb_trans (some a) (some b) none h k = cc
uid_leb_trans (some a) (some b) (some c) h k = str_leb-IsOrder.trans a b c h k

-- The order of the sort's key, of four parts that are compared one after another, each of the first two
-- the larger first.
module _ (character : String) (ids : List String) where
  candidate_leb_total :
      (a b : Candidate)
      → candidate_leb character ids a b ≡ false
      → candidate_leb character ids b a ≡ true
  unfolding candidate_leb
  candidate_leb_total a b h = ground (arith, uid_leb_total a.pod.uid b.pod.uid)

  candidate_leb_trans :
      (a b c : Candidate)
      → candidate_leb character ids a b ≡ true
      → candidate_leb character ids b c ≡ true
      → candidate_leb character ids a c ≡ true
  unfolding candidate_leb
  candidate_leb_trans a b c h k = ground (arith, uid_leb_trans a.pod.uid b.pod.uid c.pod.uid)

  pub candidate_leb-IsOrder : IsOrder (candidate_leb character ids)
  candidate_leb-IsOrder = record { total = candidate_leb_total; trans = candidate_leb_trans }

  -- Of the candidates the chosen one has room for the character or has it already, is not draining, and
  -- comes before or stands level with every other of that kind.
  pub record IsPreferred (config : Config) (cs : List Candidate) (chosen : Candidate) : Type 0 where
    pub listed : In chosen cs
    pub room : has_room config character chosen ≡ true
    pub open_for_new : pod_draining chosen.pod ≡ false
    pub best :
        (c : Candidate)
        → In c cs
        → has_room config character c ≡ true
        → pod_draining c.pod ≡ false
        → candidate_leb character ids chosen c ≡ true

  pub eligible-IsPreferred :
      (config : Config) (cs : List Candidate) (chosen : Candidate) (rest : List Candidate)
      → eligible config character ids cs ≡ chosen ∷ rest
      → IsPreferred config cs chosen
  unfolding eligible
  eligible-IsPreferred config cs chosen rest h =
      let roomy = retain (has_room config character) cs in
      let (kept, best) =
        sort_by-least (candidate_leb character ids) candidate_leb-IsOrder chosen rest
          (retain (λ c. not (pod_draining c.pod)) roomy) h in
      let (m, steady) =
        In-retain→ (λ (c : Candidate). not (pod_draining c.pod)) chosen roomy kept in
      let (listed, room) = In-retain→ (has_room config character) chosen cs m in
      record {
        listed = listed;
        room = room;
        open_for_new = ground arith;
        best = λ c i r d. best c (
            In-retain← (λ (x : Candidate). not (pod_draining x.pod)) c roomy
              (In-retain← (has_room config character) c cs i r) (ground arith));
      }
