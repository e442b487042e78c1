-- ===== src/Query/Requests.antt =====
-- query_server.rs: `read_request` on a request that the stream splits.
use udp_director.Prelude.{
  ℕ, ◌≤◌, ◌<◌, ◌≡◌, refl, sym, ap, ◌∙◌, Option, none, some, List, [], ◌∷◌, ◌++◌, arith, length,
  length-append,
}
use udp_director.Result.{Result, ok}
use udp_director.Query.{QueryRequest}
use udp_director.Query.Read.{
  Parsed, complete, truncated, ReadResult, chunk, finish, receive, read_from, read_request,
}

-- Chunks of at least one byte, as the reads that give them and as the bytes that they make.
abbrev pub Pieces : Type 0
Pieces = List (ℕ × List ℕ)

abbrev pub reads_of : Pieces → List ReadResult
reads_of [] = []
reads_of ((b, bs) ∷ rest) = chunk (b ∷ bs) ∷ reads_of rest

abbrev pub bytes_of : Pieces → List ℕ
bytes_of [] = []
bytes_of ((b, bs) ∷ rest) = (b ∷ bs) ++ bytes_of rest

append_assoc : (xs ys zs : List ℕ) → (xs ++ ys) ++ zs ≡ xs ++ (ys ++ zs)
append_assoc [] ys zs = refl
append_assoc (x ∷ xs) ys zs = ap (◌∷◌ x) (append_assoc xs ys zs)

append_nil : (xs : List ℕ) → xs ++ [] ≡ xs
append_nil [] = refl
append_nil (x ∷ xs) = ap (◌∷◌ x) (append_nil xs)

module _ (parse : List ℕ → Parsed) where
  -- The parser accepts the message and asks for more at every part of it that begins it.
  abbrev pub IsMessage : List ℕ → QueryRequest → Type 0
  IsMessage message request =
      (parse message ≡ complete request)
      × ((part rest : List ℕ)
          → message ≡ part ++ rest
          → 0 < length part
          → 0 < length rest
          → parse part ≡ truncated)

  receive-short :
      (payload : List ℕ) (more : Option (Result (Option QueryRequest)))
      → length payload ≤ 65536
      → receive parse payload more ≡ finish (parse payload) more
  receive-short payload more short = ground arith

  read_from-message :
      (message : List ℕ) (request : QueryRequest) (before : List ℕ) (b : ℕ) (bs : List ℕ)
      (pieces : Pieces)
      → IsMessage message request
      → length message ≤ 65536
      → message ≡ (before ++ b ∷ bs) ++ bytes_of pieces
      → read_from parse before (reads_of ((b, bs) ∷ pieces)) ≡ some (ok (some request))
  unfolding read_from
  read_from-message message request before b bs [] (whole, parts) short is =
      let same : message ≡ before ++ b ∷ bs = is ∙ append_nil (before ++ b ∷ bs) in
      rw (← same, receive-short message none short, whole) refl
  read_from-message message request before b bs ((c, cs) ∷ pieces) (whole, parts) short is =
      let payload = before ++ b ∷ bs in
      let size = ap length is in
      let fits : length payload ≤ 65536 =
        omega (arith, size, short, length-append payload (bytes_of ((c, cs) ∷ pieces))) in
      let asks : parse payload ≡ truncated =
        parts payload (bytes_of ((c, cs) ∷ pieces)) is
          (omega (arith, length-append before (b ∷ bs))) (omega arith) in
      let moved : (payload ++ c ∷ cs) ++ bytes_of pieces ≡ payload ++ bytes_of ((c, cs) ∷ pieces) =
        append_assoc payload (c ∷ cs) (bytes_of pieces) in
      let is' : message ≡ (payload ++ c ∷ cs) ++ bytes_of pieces = is ∙ sym moved in
      let later = read_from-message message request payload c cs pieces (whole, parts) short is' in
      rw (receive-short payload (read_from parse payload (reads_of ((c, cs) ∷ pieces))) fits, asks)
        later

-- A request of at most 65536 bytes that the parser accepts, and at whose beginnings it asks for more,
-- is read in whatever chunks of at least one byte the stream gives it.
pub read_request-message :
    (parse : List ℕ → Parsed) (request : QueryRequest) (b : ℕ) (bs : List ℕ) (pieces : Pieces)
    → IsMessage parse (bytes_of ((b, bs) ∷ pieces)) request
    → length (bytes_of ((b, bs) ∷ pieces)) ≤ 65536
    → read_request parse (reads_of ((b, bs) ∷ pieces)) ≡ some (ok (some request))
unfolding read_request
read_request-message parse request b bs pieces message short =
    read_from-message parse (bytes_of ((b, bs) ∷ pieces)) request [] b bs pieces message short refl
