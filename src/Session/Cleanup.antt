-- ===== src/Session/Cleanup.antt =====
-- session.rs: what a round of `cleanup_loop` removes, and what it reports.
use udp_director.Prelude.{
  ℕ, ◌≡◌, refl, ◌∙◌, inl, inr, String, Bool, true, false, Option, none, some, List, [], ◌∷◌, ◌++◌,
  ◌==◌, if◌then◌else◌, All, any, Bool-cases, Option-cases, arith,
}
use udp_director.Prelude.Maps.{Map, lookup, lookup-remove, beq_refl, Lacks, HasDistinctKeys}
use udp_director.Session.{SessionKey, key_eq, key_beq_iff, Session, is_timed_out}
use udp_director.Session.Manager.{
  Store, SessionManager, timed_out_keys, remove_key, remove_keys, cleanup, notices,
}

abbrev has_key : SessionKey → List SessionKey → Bool
has_key key keys = any (λ k. k == key) keys

pub lookup-remove_key :
    (manager : SessionManager) (key other : SessionKey) (st : Store)
    → lookup other (remove_key manager key st).0.sessions
      ≡ (if key == other then none else lookup other st.sessions)
unfolding remove_key
lookup-remove_key manager key other st = elim (Option-cases (lookup key st.sessions)) [
  | inl q ↦ rw (remove_key, q) (ground (arith, q, key_beq_iff key other))
  | inr (s, q) ↦ rw (remove_key, q) (lookup-remove key other st.sessions)
]

lookup-remove_keys :
    (manager : SessionManager) (keys : List SessionKey) (other : SessionKey) (st : Store)
    → lookup other (remove_keys manager keys st).0.sessions
      ≡ (if has_key other keys then none else lookup other st.sessions)
unfolding remove_keys any
lookup-remove_keys manager [] other st = refl
lookup-remove_keys manager (key ∷ keys) other st =
    rw
      (
        lookup-remove_keys manager keys other (remove_key manager key st).0,
        lookup-remove_key manager key other st,
      )
      (ground arith)

has_key-Lacks :
    (now timeout : ℕ) (key : SessionKey) (m : Map SessionKey Session)
    → Lacks key m
    → has_key key (timed_out_keys now timeout m) ≡ false
unfolding timed_out_keys any
has_key-Lacks now timeout key [] h = refl
has_key-Lacks now timeout key ((j, s) ∷ m) h = ground (arith, has_key-Lacks now timeout key m h.1)

-- What is left of an entry after a round at this time.
abbrev pub still_live : ℕ → ℕ → Option Session → Option Session
still_live now timeout none = none
still_live now timeout (some s) = if is_timed_out now s timeout then none else some s

abbrev pub had_timed_out : ℕ → ℕ → Option Session → Bool
had_timed_out now timeout none = false
had_timed_out now timeout (some s) = is_timed_out now s timeout

-- The first half of a round collects the keys of the sessions that have timed out.
has_key-timed_out_keys :
    (now timeout : ℕ) (key : SessionKey) (m : Map SessionKey Session)
    → HasDistinctKeys m
    → has_key key (timed_out_keys now timeout m) ≡ had_timed_out now timeout (lookup key m)
unfolding timed_out_keys lookup any
has_key-timed_out_keys now timeout key [] d = refl
has_key-timed_out_keys now timeout key ((j, s) ∷ m) d = elim (Bool-cases (j == key)) [
  | inl same ↦
      let same_key : j ≡ key = (key_beq_iff j key).0 same in
      let absent : has_key key (timed_out_keys now timeout m) ≡ false =
        has_key-Lacks now timeout key m (rw (← same_key) d.0) in
      ground (arith, same, absent)
  | inr other ↦ ground (arith, other, has_key-timed_out_keys now timeout key m d.1)
]

-- A round whose halves other tasks came between removes the sessions under the keys of those that had
-- timed out when it collected them, whether or not they were touched or replaced since, and keeps
-- every other as it now is, where the keys of the map were distinct.
pub lookup-remove_keys_later :
    (manager : SessionManager) (now : ℕ) (key : SessionKey) (st later : Store)
    → HasDistinctKeys st.sessions
    → lookup key
        (remove_keys manager
          (timed_out_keys now manager.timeout_seconds st.sessions)
          later).0.sessions
      ≡ (if had_timed_out now manager.timeout_seconds (lookup key st.sessions)
          then none
          else lookup key later.sessions)
lookup-remove_keys_later manager now key st later d =
    rw (← has_key-timed_out_keys now manager.timeout_seconds key st.sessions d) (
      lookup-remove_keys manager (timed_out_keys now manager.timeout_seconds st.sessions) key later)

kept-still_live :
    (now timeout : ℕ) (found : Option Session)
    → (if had_timed_out now timeout found then none else found) ≡ still_live now timeout found
kept-still_live now timeout none = refl
kept-still_live now timeout (some s) = refl

-- Where the keys of the map are distinct, a round of the cleanup removes exactly the sessions that
-- have been idle for more than the timeout and keeps every other as it is.
pub lookup-cleanup :
    (manager : SessionManager) (now : ℕ) (key : SessionKey) (st : Store)
    → HasDistinctKeys st.sessions
    → lookup key (cleanup manager now st).0.sessions
      ≡ still_live now manager.timeout_seconds (lookup key st.sessions)
unfolding cleanup
lookup-cleanup manager now key st d =
    lookup-remove_keys_later manager now key st st d
    ∙ kept-still_live now manager.timeout_seconds (lookup key st.sessions)

-- The targets of the sessions that have timed out.
abbrev pub timed_out_targets : ℕ → ℕ → Map SessionKey Session → List String
timed_out_targets now timeout [] = []
timed_out_targets now timeout ((key, s) ∷ rest) =
    if is_timed_out now s timeout
    then s.target_ip ∷ timed_out_targets now timeout rest
    else timed_out_targets now timeout rest

abbrev pub told : Bool → List String → List String
told true targets = targets
told false targets = []

-- Each of these entries is what the store finds under its key.
abbrev Finds : Map SessionKey Session → Map SessionKey Session → Type 0
Finds sessions m = All (λ entry. lookup entry.0 sessions ≡ some entry.1) m

told-cons :
    (flag : Bool) (a : String) (rest : List String)
    → (notices flag a ++ told flag rest) ≡ told flag (a ∷ rest)
told-cons true a rest = refl
told-cons false a rest = refl

Finds-remove_key :
    (manager : SessionManager) (key : SessionKey) (st : Store) (m : Map SessionKey Session)
    → Lacks key m
    → Finds st.sessions m
    → Finds (remove_key manager key st).0.sessions m
Finds-remove_key manager key st [] n h = tt
Finds-remove_key manager key st ((j, s) ∷ m) n h = (
  lookup-remove_key manager key j st
      ∙ ground (arith, n.0, h.0, key_beq_iff key j, key_beq_iff j key),
  Finds-remove_key manager key st m n.1 h.1,
)

remove_key-told :
    (manager : SessionManager) (key : SessionKey) (s : Session) (st : Store)
    → lookup key st.sessions ≡ some s
    → (remove_key manager key st).1 ≡ notices manager.has_callback s.target_ip
unfolding remove_key
remove_key-told manager key s st q = rw (remove_key, q) refl

remove_keys-told :
    (manager : SessionManager) (now timeout : ℕ) (m : Map SessionKey Session) (st : Store)
    → HasDistinctKeys m
    → Finds st.sessions m
    → (remove_keys manager (timed_out_keys now timeout m) st).1
      ≡ told manager.has_callback (timed_out_targets now timeout m)
unfolding remove_keys timed_out_keys
remove_keys-told manager now timeout [] st d h = ground arith
remove_keys-told manager now timeout ((key, s) ∷ m) st d h =
    elim (Bool-cases (is_timed_out now s timeout)) [
      | inl out ↦
          rw
            (
              out,
              remove_key-told manager key s st h.0,
              remove_keys-told manager now timeout m (remove_key manager key st).0 d.1
                  (Finds-remove_key manager key st m d.0 h.1),
            )
            (told-cons manager.has_callback s.target_ip (timed_out_targets now timeout m))
      | inr live ↦ rw live (remove_keys-told manager now timeout m st d.1 h.1)
    ]

Finds-cons :
    (key : SessionKey) (s : Session) (sessions m : Map SessionKey Session)
    → Lacks key m
    → Finds sessions m
    → Finds ((key, s) ∷ sessions) m
unfolding lookup
Finds-cons key s sessions [] n h = tt
Finds-cons key s sessions ((j, t) ∷ m) n h = (
  ground (arith, n.0, h.0, key_beq_iff key j, key_beq_iff j key),
  Finds-cons key s sessions m n.1 h.1,
)

Finds-self : (m : Map SessionKey Session) → HasDistinctKeys m → Finds m m
unfolding lookup
Finds-self [] d = tt
Finds-self ((key, s) ∷ m) d = (rw (beq_refl key) refl, Finds-cons key s m m d.0 (Finds-self m d.1))

-- The callback of a cleanup round, if there is one, hears the target of each session that has timed
-- out, once for each and in order, where the keys of the map are distinct.
pub cleanup-told :
    (manager : SessionManager) (now : ℕ) (st : Store)
    → HasDistinctKeys st.sessions
    → (cleanup manager now st).1
      ≡ told manager.has_callback (timed_out_targets now manager.timeout_seconds st.sessions)
unfolding cleanup
cleanup-told manager now st d =
    remove_keys-told manager now manager.timeout_seconds st.sessions st d (Finds-self st.sessions d)
