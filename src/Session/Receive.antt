-- ===== src/Session/Receive.antt =====
-- session.rs: the task of a socket, which sends what arrives from the backend back to the client. Each
-- round reads the stop flag and then waits for a datagram for a second at most.
use udp_director.Prelude.{
  ℕ, ◌≡◌, refl, ap, Bool, true, false, List, [], ◌∷◌, ◌++◌, map, if◌then◌else◌, Bool-cases, inl,
  inr,
}
use udp_director.Net.{SocketAddr}

-- What a round's wait gives: the bytes of a datagram with its sender, an error, or nothing in time.
pub data Arrival : Type 0 where
  datagram : List ℕ → SocketAddr → Arrival
  receive_error timed_out : Arrival

-- A round, with the flag as it is at its start.
pub record Round : Type 0 where
  pub shutdown : Bool
  pub arrival : Arrival

-- What is sent through the data port's own socket; whether it is delivered changes nothing.
pub record Reply : Type 0 where
  pub client : SocketAddr
  pub payload : List ℕ

abbrev and_reply : Reply → List Reply × Bool → List Reply × Bool
and_reply r (rs, running) = (r ∷ rs, running)

abbrev after_arrival : SocketAddr → Arrival → List Reply × Bool → List Reply × Bool
after_arrival client (datagram bytes sender) later =
    and_reply (record { client = client; payload = bytes }) later
after_arrival client receive_error later = ([], false)
after_arrival client timed_out later = later

-- The replies of the rounds so far, and whether the task still runs.
unfoldable pub receive_task : SocketAddr → List Round → List Reply × Bool
receive_task client [] = ([], true)
receive_task client (round ∷ rounds) =
    let later = receive_task client rounds in
    if round.shutdown then ([], false) else after_arrival client round.arrival later

-- The payloads that arrive before the first round that is told to stop or fails.
abbrev arrived : Arrival → List (List ℕ) → List (List ℕ)
arrived (datagram bytes sender) later = bytes ∷ later
arrived receive_error later = []
arrived timed_out later = later

unfoldable pub payloads : List Round → List (List ℕ)
payloads [] = []
payloads (round ∷ rounds) =
    let later = payloads rounds in if round.shutdown then [] else arrived round.arrival later

abbrev pub reply_to : SocketAddr → List ℕ → Reply
reply_to client bytes = record { client = client; payload = bytes }

replies_after :
    (client : SocketAddr) (arrival : Arrival) (later : List Reply × Bool) (bytes : List (List ℕ))
    → later.0 ≡ map (reply_to client) bytes
    → (after_arrival client arrival later).0 ≡ map (reply_to client) (arrived arrival bytes)
replies_after client (datagram b sender) later bytes h = ap (◌∷◌ (reply_to client b)) h
replies_after client receive_error later bytes h = refl
replies_after client timed_out later bytes h = h

-- The replies of a socket's task are the payloads that arrive before it stops, whole, in order and
-- once each, and all go to the client socket that the task was started for.
pub receive_task-lem :
    (client : SocketAddr) (rounds : List Round)
    → (receive_task client rounds).0 ≡ map (reply_to client) (payloads rounds)
unfolding receive_task payloads
receive_task-lem client [] = refl
receive_task-lem client (round ∷ rounds) = elim (Bool-cases round.shutdown) [
  | inl stop ↦ rw (receive_task, payloads, stop) refl
  | inr go ↦
      rw (receive_task, payloads, go)
        (replies_after client round.arrival (receive_task client rounds) (payloads rounds)
          (receive_task-lem client rounds))
]

stays_ended :
    (client : SocketAddr) (arrival : Arrival) (longer shorter : List Reply × Bool)
    → longer ≡ (shorter.0, false)
    → after_arrival client arrival longer ≡ ((after_arrival client arrival shorter).0, false)
stays_ended client (datagram b sender) longer shorter h = ap (and_reply (reply_to client b)) h
stays_ended client receive_error longer shorter h = refl
stays_ended client timed_out longer shorter h = h

-- From a round that finds the stop flag set the task sends nothing more and has ended.
pub receive_task-stopped :
    (client : SocketAddr) (rounds : List Round) (next : Round) (rest : List Round)
    → next.shutdown ≡ true
    → receive_task client (rounds ++ next ∷ rest) ≡ ((receive_task client rounds).0, false)
unfolding receive_task
receive_task-stopped client [] next rest h = rw (receive_task, h) refl
receive_task-stopped client (round ∷ rounds) next rest h = elim (Bool-cases round.shutdown) [
  | inl stop ↦ rw (receive_task, stop) refl
  | inr go ↦
      rw (receive_task, go)
        (stays_ended client round.arrival (receive_task client (rounds ++ next ∷ rest))
          (receive_task client rounds) (receive_task-stopped client rounds next rest h))
]
