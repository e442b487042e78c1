-- ===== src/Query/Chosen.antt =====
-- query_server.rs: the server that a query is given.
use mathlib.Core.Path.{subst}
use udp_director.Prelude.{
  ℕ, ◌≡◌, refl, inl, inr, Bool, true, false, Option, some, List, [], ◌∷◌, In, arith, Option-cases,
}
use udp_director.Result.{ok}
use udp_director.Kube.{Resource, Pod, pod_ready}
use udp_director.Characters.{Formats, characters_on_pod}
use udp_director.Config.{Config}
use udp_director.Result.{Result-cases}
use udp_director.Query.{Candidate, candidate_if, candidates_from}

-- What a candidate is: a listed resource that reads as a ready Pod, with the characters it shows.
pub record IsCandidate (formats : Formats) (to_pod : Resource → Option Pod) (config : Config)
    (now : ℕ) (rs : List Resource) (c : Candidate) : Type 0 where
  pub listed : In c.resource rs
  pub read : to_pod c.resource ≡ some c.pod
  pub ready : pod_ready c.pod ≡ true
  pub shown : c.characters ≡ characters_on_pod formats c.pod config [] now

module _ (formats : Formats) (to_pod : Resource → Option Pod) (config : Config) (now : ℕ) where
  abbrev CandidateOf : List Resource → Candidate → Type 0
  CandidateOf = IsCandidate formats to_pod config now

  CandidateOf-later :
      (r : Resource) (rs : List Resource) (c : Candidate)
      → CandidateOf rs c
      → CandidateOf (r ∷ rs) c
  CandidateOf-later r rs c h = record {
    listed = inr h.listed;
    read = h.read;
    ready = h.ready;
    shown = h.shown;
  }

  candidate_if-CandidateOf :
      (r : Resource) (rs : List Resource) (pod : Pod) (rest : List Candidate) (ready : Bool)
      → to_pod r ≡ some pod
      → pod_ready pod ≡ ready
      → ((c : Candidate) → In c rest → CandidateOf rs c)
      → (c : Candidate) → In c (candidate_if formats to_pod config now ready r pod rest)
      → CandidateOf (r ∷ rs) c
  candidate_if-CandidateOf r rs pod rest false is q f c m = CandidateOf-later r rs c (f c m)
  candidate_if-CandidateOf r rs pod rest true is q f c (inr m) = CandidateOf-later r rs c (f c m)
  candidate_if-CandidateOf r rs pod rest true is q f c (inl e) =
      subst (CandidateOf (r ∷ rs)) e
        (record { listed = inl refl; read = is; ready = q; shown = refl })

  -- Each candidate of a query is a listed resource that reads as a ready Pod, with the characters that
  -- the Pod shows at that instant.
  pub candidates_from-IsCandidate :
      (rs : List Resource) (cs : List Candidate)
      → candidates_from formats to_pod config now rs ≡ ok cs
      → (c : Candidate) → In c cs
      → CandidateOf rs c
  unfolding candidates_from
  candidates_from-IsCandidate [] cs h c m = absurd (ground (arith, h, m))
  candidates_from-IsCandidate (r ∷ rs) cs h c m = elim (Option-cases (to_pod r)) [
    | inl q ↦ absurd (cc)
    | inr (pod, q) ↦ elim (Result-cases (candidates_from formats to_pod config now rs)) [
      | inr (inl (e, later)) ↦ absurd cc
      | inr (inr later) ↦ absurd cc
      | inl (rest, later) ↦
          let is : candidate_if formats to_pod config now (pod_ready pod) r pod rest ≡ cs =
            ground (arith, h, q, later) in
          candidate_if-CandidateOf r rs pod rest (pod_ready pod) q refl
            (candidates_from-IsCandidate rs rest later) c (rw is m)
    ]
  ]

  candidate_if-In :
      (r : Resource) (pod : Pod) (rest : List Candidate) (c : Candidate)
      → r ≡ c.resource
      → pod ≡ c.pod
      → pod_ready c.pod ≡ true
      → c.characters ≡ characters_on_pod formats c.pod config [] now
      → In c (candidate_if formats to_pod config now (pod_ready pod) r pod rest)
  candidate_if-In r pod rest c same at ready shown = rw (same, at, ready) (inl (rw (← shown) refl))

  candidate_if-later :
      (r : Resource) (pod : Pod) (rest : List Candidate) (c : Candidate) (ready : Bool)
      → In c rest
      → In c (candidate_if formats to_pod config now ready r pod rest)
  candidate_if-later r pod rest c true m = inr m
  candidate_if-later r pod rest c false m = m

  -- And each such resource gives a candidate.
  pub IsCandidate-candidates_from :
      (rs : List Resource) (cs : List Candidate)
      → candidates_from formats to_pod config now rs ≡ ok cs
      → (c : Candidate) → CandidateOf rs c
      → In c cs
  unfolding candidates_from
  IsCandidate-candidates_from [] cs h c is = absurd is.listed
  IsCandidate-candidates_from (r ∷ rs) cs h c is = elim (Option-cases (to_pod r)) [
    | inl q ↦ absurd (cc)
    | inr (pod, q) ↦ elim (Result-cases (candidates_from formats to_pod config now rs)) [
      | inr (inl (e, later)) ↦ absurd cc
      | inr (inr later) ↦ absurd cc
      | inl (rest, later) ↦
          let all : candidate_if formats to_pod config now (pod_ready pod) r pod rest ≡ cs =
            ground (arith, h, q, later) in
          rw (← all) (elim is.listed [
            | inl same ↦
                let read : to_pod r ≡ some c.pod = rw same is.read in
                let at : pod ≡ c.pod = cc in candidate_if-In r pod rest c same at is.ready is.shown
            | inr m ↦ candidate_if-later r pod rest c (pod_ready pod) (
                IsCandidate-candidates_from rs rest later c
                  (record { listed = m; read = is.read; ready = is.ready; shown = is.shown }))
          ])
    ]
  ]
