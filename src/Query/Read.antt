-- ===== src/Query/Read.antt =====
-- query_server.rs: `read_request`, over the results of the reads on the stream.
use udp_director.Prelude.{ℕ, Option, none, some, List, [], ◌∷◌, ◌++◌, ltb, if◌then◌else◌, length}
use udp_director.Result.{
  Result, ok, err, incomplete_request, request_too_long, bad_request, read_failed,
}
use udp_director.Config.{is_nil}
use udp_director.Query.{QueryRequest}

-- What serde_json makes of the bytes so far: `is_eof` errors ask for more.
pub data Parsed : Type 0 where
  complete : QueryRequest → Parsed
  truncated malformed : Parsed

-- A read gives bytes, fails, or finds the stream closed.
pub data ReadResult : Type 0 where
  chunk : List ℕ → ReadResult
  failed : ReadResult

-- `none` while the reads so far leave the loop waiting.
abbrev pub closed : List ℕ → Result (Option QueryRequest)
closed payload = if is_nil payload then ok none else err incomplete_request

abbrev pub finish :
    Parsed → Option (Result (Option QueryRequest)) → Option (Result (Option QueryRequest))
finish (complete request) more = some (ok (some request))
finish truncated more = more
finish malformed more = some (err bad_request)

module _ (parse : List ℕ → Parsed) where
  -- The payload with a chunk of at least one byte behind it.
  abbrev pub receive :
      List ℕ → Option (Result (Option QueryRequest)) → Option (Result (Option QueryRequest))
  receive payload more =
      if ltb 65536 (length payload)
      then some (err request_too_long)
      else finish (parse payload) more

  unfoldable pub read_from : List ℕ → List ReadResult → Option (Result (Option QueryRequest))
  read_from payload [] = none
  read_from payload (failed ∷ reads) = some (err read_failed)
  read_from payload (chunk [] ∷ reads) = some (closed payload)
  read_from payload (chunk (b ∷ bs) ∷ reads) =
      let more = read_from (payload ++ b ∷ bs) reads in receive (payload ++ b ∷ bs) more

  unfoldable pub read_request : List ReadResult → Option (Result (Option QueryRequest))
  unfolding read_from
  read_request reads = read_from [] reads
