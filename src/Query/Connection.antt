-- ===== src/Query/Connection.antt =====
-- query_server.rs: `handle_connection`, one request and at most one response on a TCP connection, and
-- the wait for the client to go away.
use udp_director.Prelude.{
  ℕ, String, Bool, true, false, Option, none, some, List, [], ◌∷◌, ◌≡◌, ◌≢◌, refl, ap, ◌⊎◌, inl,
  inr, Bool-cases, arith, string_eq,
}
use udp_director.Prelude.Maps.{Map}
use udp_director.Result.{Result, ok, err, panic, Error, incomplete_request, request_too_long}
use udp_director.Net.{SocketAddr}
use udp_director.Config.{Config}
use udp_director.Kube.Select.{ListCall}
use udp_director.Session.Manager.{Store}
use udp_director.Query.{QueryRequest, QueryResponse, success, error, access_of}
use udp_director.Query.Answers.{IsServed, process_access-IsServed}
use udp_director.Query.Read.{Parsed, ReadResult, chunk, failed, read_request}
use udp_director.Query.Targets.{Cluster}
use udp_director.Query.Process.{
  WaitEvent, Progress, waiting, done, process_access, response_of, is_cancelled,
}
use udp_director.Query.Safety.{process_access-IsSafe}

-- The connection stays open, is closed without a response, or has been written one; whether it
-- arrives changes nothing.
pub data Connection : Type 0 where
  still_open closed : Connection
  responded : QueryResponse → Connection

-- The text of an error of `read_request`; those of the parser and of the stream are their own.
unfoldable pub read_error_text : (Error → String) → Error → String
read_error_text foreign incomplete_request = "Incomplete JSON request"
read_error_text foreign request_too_long = "Query exceeds 65536 bytes"
read_error_text foreign e = foreign e

abbrev pub write : Option QueryResponse → Connection
write none = closed
write (some response) = responded response

abbrev pub written : Progress → Connection
written waiting = still_open
written (done r) = write (response_of r)

-- Reads go on while the client sends, and end when it closes the stream or the stream fails.
unfoldable pub wait_for_disconnect : List ReadResult → Bool
wait_for_disconnect [] = false
wait_for_disconnect (failed ∷ reads) = true
wait_for_disconnect (chunk [] ∷ reads) = true
wait_for_disconnect (chunk (b ∷ bs) ∷ reads) = wait_for_disconnect reads

module _ (parse : List ℕ → Parsed) (foreign : Error → String) (cluster : Cluster) (config : Config)
    (clock : ℕ) (list : ListCall) (events : List WaitEvent) where
  abbrev pub process_query : SocketAddr → QueryRequest → Store → Store × Connection
  process_query client request st =
      let (st', progress) = process_access cluster config client clock request list events st in
      (st', written progress)

  abbrev pub after_read :
      SocketAddr → Option (Result (Option QueryRequest)) → Store → Store × Connection
  after_read client none st = (st, still_open)
  after_read client (some (ok none)) st = (st, closed)
  after_read client (some (ok (some request))) st = process_query client request st
  after_read client (some (err e)) st = (st, responded (error (read_error_text foreign e)))
  after_read client (some panic) st = (st, closed)

  unfoldable pub handle_connection :
      Option SocketAddr → List ReadResult → Store → Store × Connection
  handle_connection none reads st = (st, closed)
  handle_connection (some client) reads st = after_read client (read_request parse reads) st

  -- A request was read for which a server is allocated, the session of the client was replaced by one
  -- with the routes of that server's assignment, and the response to be written names the server.
  abbrev pub IsAllocated : Option SocketAddr → List ReadResult → Store → Store × Connection → Type 0
  IsAllocated peer reads st (st', connection) =
      (client : SocketAddr) × ((request : QueryRequest) × ((server : String) × ((ports : Map String
              ℕ)
            × (peer ≡ some client)
            × (read_request parse reads ≡ some (ok (some request)))
            × IsServed cluster config client clock (access_of request) list events server ports st
                st'
            × (connection ≡ responded (success "Allocated" server ports)))))

  -- Nobody was told of a server, and no session and no socket changed.
  abbrev pub IsWithoutRoute : Store → Store × Connection → Type 0
  IsWithoutRoute st (st', connection) =
      (st' ≡ st)
      × ((server : String) (ports : Map String ℕ)
          → connection ≢ responded (success "Allocated" server ports))

  write-success :
      (r : Result QueryResponse) (server : String) (ports : Map String ℕ)
      → write (response_of r) ≡ responded (success "Allocated" server ports)
      → r ≡ ok (success "Allocated" server ports)
  unfolding response_of
  write-success (ok response) server ports h = cc
  write-success panic server ports h = absurd cc
  write-success (err e) server ports h = elim (Bool-cases (is_cancelled e)) [
    | inl gone ↦ absurd (ground (arith, h, gone))
    | inr other ↦ absurd (ground (arith, h, other))
  ]

  written-success :
      (progress : Progress) (server : String) (ports : Map String ℕ)
      → written progress ≡ responded (success "Allocated" server ports)
      → progress ≡ done (ok (success "Allocated" server ports))
  written-success waiting server ports h = absurd cc
  written-success (done r) server ports h = ap done (write-success r server ports h)

  process_query-cases :
      (client : SocketAddr) (request : QueryRequest) (reads : List ReadResult) (st : Store)
      → read_request parse reads ≡ some (ok (some request))
      → IsAllocated (some client) reads st (process_query client request st)
        ⊎ IsWithoutRoute st (process_query client request st)
  unfolding response_of
  process_query-cases client request reads st read =
      elim (process_access-IsSafe cluster config client clock request list events st) [
        | inl (a, told, store) ↦ inl (
          client,
          (
            request,
            (
              a.server,
              (
                a.public_ports,
                refl,
                read,
                process_access-IsServed cluster config client clock request list events st
                    "Allocated" a.server a.public_ports told,
                ap written told,
              ),
            ),
          ),
        )
        | inr (same, other) ↦ inr (
          same,
          λ server ports h. other server ports (
              written-success (process_access cluster config client clock request list events st).1
                server ports h),
        )
      ]

  after_read-cases :
      (client : SocketAddr) (reads : List ReadResult) (st : Store)
      (r : Option (Result (Option QueryRequest)))
      → read_request parse reads ≡ r
      → IsAllocated (some client) reads st (after_read client r st)
        ⊎ IsWithoutRoute st (after_read client r st)
  after_read-cases client reads st none q = inr (refl, λ server ports h. cc)
  after_read-cases client reads st (some (ok none)) q = inr (refl, λ server ports h. cc)
  after_read-cases client reads st (some (ok (some request))) q =
      process_query-cases client request reads st q
  after_read-cases client reads st (some (err e)) q = inr (refl, λ server ports h. cc)
  after_read-cases client reads st (some panic) q = inr (refl, λ server ports h. cc)

-- A connection changes the sessions only if it sent a request for which a server is allocated: then
-- the client's session is replaced by one with the routes of the assignment to the Pod that the server
-- names, and the response to be written names the server, whether or not it arrives; a connection that
-- is closed, waits, sends no request, a bad or too long one, or is answered otherwise changes no
-- session and no socket.
pub handle_connection-cases :
    (parse : List ℕ → Parsed) (foreign : Error → String) (cluster : Cluster) (config : Config)
    (clock : ℕ) (list : ListCall) (events : List WaitEvent) (peer : Option SocketAddr)
    (reads : List ReadResult) (st : Store)
    → (let r = handle_connection parse foreign cluster config clock list events peer reads st in
        IsAllocated parse foreign cluster config clock list events peer reads st r
        ⊎ IsWithoutRoute parse foreign cluster config clock list events st r)
unfolding handle_connection
handle_connection-cases parse foreign cluster config clock list events none reads st =
    inr (refl, λ server ports h. cc)
handle_connection-cases parse foreign cluster config clock list events (some client) reads st =
    after_read-cases parse foreign cluster config clock list events client reads st
      (read_request parse reads) refl
