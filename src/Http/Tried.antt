-- ===== src/Http/Tried.antt =====
-- What a round of `HttpProtocol::onDataReceived` may do.
use cndl.Base.{
  ℕ, ◌+◌, ◌≤◌, ◌<◌, ◌≡◌, refl, sym, ap, ◌∙◌, inl, inr, Bytes, length, length-drop, take, drop,
  drop-add, ltb, ltb→ge, Option, none, some, err, Exception, out_of_range, index_of, found_fits,
  Bool-cases, Option-cases, All, arith,
}
use cndl.Request.Types.{Header}
use cndl.Request.Parse.{parse_header}
use cndl.Request.HeaderRounds.{header-Ends}
use cndl.Http.Ends.{IsRoute, serialize-Ends}
use cndl.Http.Types.{Surroundings, Progress, Attempt}
use cndl.Http.Protocol.{read_header, read_message, go_on, try_block, handle}
use cndl.Http.Head.{crlfcrlf}
use cndl.Http.Next.{
  IsLast, GivesNext, IsRefused, Advances, progress, substr_from-cases, Result-cases,
  process-GivesNext, handled, IsFinite-throws, written-stops, err-cases,
}

module _ {Pattern : Type 0} (env : Surroundings Pattern)
    (routes : All IsRoute env.dispatcher.ws_routes) where
  -- What a round of the loop may do.
  pub data Tried (s : Progress) (a : Attempt) : Type 0 where
    advances : Advances s a.progress → GivesNext a.result → Tried s a
    is_last :
        IsLast (handled env a.result)
        → a.progress.consumed ≤ s.consumed + length s.received
        → Tried s a
    refuses : a.progress ≡ s → s.header ≡ none → IsRefused s.received → Tried s a

  read_message-Tried :
      (s : Progress) (header : Header)
      → s.header ≡ some header
      → Tried s (read_message env s (some header))
  unfolding handle
  read_message-Tried s header known =
      elim (Bool-cases (ltb (length s.received) header.content_length)) [
        | inl short ↦ rw short (is_last tt (omega arith))
        | inr complete ↦
            let size = length-drop header.content_length s.received in
            let enough = ltb→ge (length s.received) header.content_length complete in
            rw complete (
              advances
                (record {
                  taken = header.content_length;
                  header_reset = refl;
                  rest = refl;
                  less = rw known (omega arith);
                  fits = omega arith;
                })
                (process-GivesNext env routes header (take header.content_length s.received)))
      ]

  -- A header of at least four bytes was cut off before.
  cut-Tried :
      (s t : Progress) (header : Header) (n : ℕ) (a : Attempt)
      → s.header ≡ none
      → 4 ≤ n
      → n ≤ length s.received
      → t.received ≡ drop n s.received
      → t.consumed + length t.received ≤ s.consumed + length s.received
      → t.header ≡ some header
      → Tried t a
      → Tried s a
  cut-Tried s t header n a no_header long enough rest fits known (advances adv next) =
      let size = ap length rest ∙ length-drop n s.received in
      let less : length a.progress.received < length t.received + 1 = rw known at adv.less in
      advances
        (record {
          taken = n + adv.taken;
          header_reset = adv.header_reset;
          rest = adv.rest ∙ ap (drop adv.taken) rest ∙ sym (drop-add adv.taken n s.received);
          less = rw no_header (omega arith);
          fits = omega (arith, adv.fits);
        })
        next
  cut-Tried s t header n a no_header long enough rest fits known (is_last last consumed) =
      is_last last (omega arith)
  cut-Tried s t header n a no_header long enough rest fits known (refuses same missing r) =
      absurd cc

  -- What reading a header may give, if none is known.
  data HeaderRead (received : Bytes) (consumed : ℕ) : Progress × Option Exception → Type 0 where
    nothing_found : HeaderRead received consumed (progress none received consumed, none)
    refused :
        (idx : ℕ) (e : Exception)
        → index_of crlfcrlf received ≡ some idx
        → parse_header (take (idx + 2) received) ≡ err e
        → HeaderRead received consumed (progress none received consumed, some e)
    behind_end :
        (header : Header) (n : ℕ)
        → n ≤ consumed + length received
        → HeaderRead received consumed (progress (some header) received n, some out_of_range)
    cut_off :
        (header : Header) (n : ℕ)
        → 4 ≤ n
        → consumed ≤ n
        → n ≤ length received
        → n ≤ consumed + length received
        → HeaderRead received consumed (progress (some header) (drop n received) n, none)

  read_header-cases :
      (received : Bytes) (consumed : ℕ)
      → HeaderRead received consumed (read_header (progress none received consumed))
  unfolding read_header
  read_header-cases received consumed = elim (Option-cases (index_of crlfcrlf received)) [
    | inl nothing ↦ rw nothing nothing_found
    | inr (idx, found) ↦
        let fits = found_fits crlfcrlf received found in
        elim (Result-cases (parse_header (take (idx + 2) received))) [
          | inr (e, thrown) ↦ rw (found, thrown) (refused idx e found thrown)
          | inl (header, parsed) ↦ elim (substr_from-cases (consumed + (idx + 4)) received) [
            | inr over ↦ rw (found, parsed, over) (behind_end header _ (omega arith))
            | inl (long, cut) ↦
                rw (found, parsed, cut)
                  (cut_off header _ (omega arith) (omega arith) long (omega arith))
          ]
        ]
  ]

  go_on-Tried :
      (received : Bytes) (consumed : ℕ) (read : Progress × Option Exception)
      → HeaderRead received consumed read
      → Tried (progress none received consumed) (go_on env read)
  unfolding handle
  go_on-Tried received consumed _ nothing_found = is_last tt (omega arith)
  go_on-Tried received consumed _ (refused idx e found thrown) =
      elim (err-cases env routes e
        (IsFinite-throws Header e (rw thrown at (header-Ends (take (idx + 2) received))))) [
          | inl last ↦ is_last last (omega arith)
          | inr (code, what, same, below) ↦ refuses refl refl (record {
            idx = idx;
            code = code;
            what = what;
            found = found;
            refused = thrown ∙ ap err same;
            below = below;
          })
        ]
  go_on-Tried received consumed _ (behind_end header n fits) =
      is_last (written-stops env routes _ (serialize-Ends _)) fits
  go_on-Tried received consumed _ (cut_off header n long grows enough fits) =
      let t = progress (some header) (drop n received) n in
      let size = length-drop n received in
      cut-Tried (progress none received consumed) t header n _ refl long enough refl (omega arith)
        refl (read_message-Tried t header refl)

  pub try_block-Tried :
      (header : Option Header) (received : Bytes) (consumed : ℕ)
      → Tried
          (progress header received consumed)
          (try_block env (progress header received consumed))
  unfolding try_block
  try_block-Tried (some header) received consumed =
      unfold read_header in read_message-Tried _ header refl
  try_block-Tried none received consumed =
      go_on-Tried received consumed _ (read_header-cases received consumed)
