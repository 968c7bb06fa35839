-- ===== src/Http/Answer.antt =====
-- A request as a client writes it, on an HTTP connection.
use cndl.Base.{
  ℕ, ◌+◌, ◌^◌, ◌<◌, ◌≡◌, sym, ap, ◌∙◌, List, ◌++◌, Bytes, length, take, take-append_length, drop,
  drop-add, drop-append_length, All, none, some, ok, arith,
}
use cndl.Request.Fields.{crlf}
use cndl.Request.Types.{Header}
use cndl.Request.Parse.{parse_header}
use cndl.Request.Lines.{IsLine}
use cndl.Request.Headers.{IsField, lowered}
use cndl.Request.RequestLine.{IsWord, request_line, header_from, parse_header-written}
use cndl.Http.Types.{Surroundings, Outcome}
use cndl.Http.Protocol.{on_data_received}
use cndl.Http.Head.{request_head, head_end}
use cndl.Http.Request.{
  kept, IsHead, served, on_data_received-body, on_data_received-IsHead, on_data_received-part,
}

-- A request line and fields as a client may write them, and the header that they stand for.
pub record IsRequest (method target version : Bytes) (fields : List (Bytes × Bytes))
    (header : Header) : Type 0 where
  pub one_word : IsWord method
  pub no_space : IsWord target
  pub one_line : IsLine (request_line method target version)
  pub short : length (request_line method target version) < 2 ^ 64
  pub readable : All IsField fields
  pub stands_for : header_from method target version (lowered fields) ≡ ok header

module _ {method target version : Bytes} {fields : List (Bytes × Bytes)} {header : Header}
    (r : IsRequest method target version fields header) (rest : Bytes) where
  abbrev head : Bytes
  head = request_head method target version fields

  abbrev received : Bytes
  received = head ++ (crlf ++ rest)

  pub request-IsHead :
      (idx : ℕ) × IsHead received idx header
      × (length head ≡ idx + 2)
      × (drop (idx + 4) received ≡ rest)
  request-IsHead =
      let (idx, found, size) = head_end method target version fields rest r.one_line r.readable in
      let front : take (idx + 2) received ≡ head =
        take-append_length (idx + 2) head (crlf ++ rest) (sym size) in
      let read =
        ap parse_header front
        ∙ parse_header-written method target version fields r.one_word r.no_space r.one_line r.short
            r.readable
        ∙ r.stands_for in
      let four : idx + 4 ≡ idx + 2 + 2 = omega arith in
      let behind : drop (idx + 4) received ≡ rest =
        ap (λ n. drop n received) four
        ∙ drop-add 2 (idx + 2) received
        ∙ ap (drop 2) (drop-append_length (idx + 2) head (crlf ++ rest) (sym size)) in
      (idx, record { found = found; read = read }, size, behind)

  module _ {Pattern : Type 0} (env : Surroundings Pattern) where
    -- A request that a client writes, with a body of the length that its header tells: the call takes
    -- all bytes, makes the calls of the request alone, and waits for the next request or ends the way
    -- the request does.
    pub on_data_received-request :
        length rest ≡ header.content_length
        → on_data_received env none received ≡ served env header rest (length received)
    on_data_received-request full =
        let (idx, h, size, behind) = request-IsHead in
        on_data_received-IsHead env h (ap length behind ∙ full)
        ∙ ap (λ body. served env header body (length received)) behind

module _ {Pattern : Type 0} (env : Surroundings Pattern) where
  -- A request whose body comes in two parts: the first call takes the header, keeps it and waits, and
  -- the second, on the part that was left and the rest, makes the same calls and ends in the same way
  -- as one call on the whole request.
  pub on_data_received-in_two :
      (method target version : Bytes) (fields : List (Bytes × Bytes)) (header : Header)
      (part more : Bytes)
      → IsRequest method target version fields header
      → length part < header.content_length
      → length (part ++ more) ≡ header.content_length
      → (on_data_received env none (request_head method target version fields ++ (crlf ++ part))
          ≡ kept header (length (request_head method target version fields) + 2))
        × (on_data_received env (some header) (part ++ more)
            ≡ record (on_data_received env none
                (request_head method target version fields ++ (crlf ++ (part ++ more)))) {
                  consumed = length (part ++ more);
                })
  on_data_received-in_two method target version fields header part more r short full =
      let (idx, h, size, behind) = request-IsHead r part in
      let at_once = on_data_received-request r (part ++ more) env full in
      let taken : idx + 4 ≡ length (request_head method target version fields) + 2 = omega arith in
      (
        on_data_received-part env h (rw behind short) ∙ ap (kept header) taken,
        on_data_received-body env header (part ++ more) full
            ∙ ap {A = Outcome} (λ o. record o { consumed = length (part ++ more) }) (sym at_once),
      )
