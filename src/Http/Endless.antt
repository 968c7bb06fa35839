-- ===== src/Http/Endless.antt =====
-- A header that is refused stays in the buffer, and `HttpProtocol::onDataReceived` reads it again.
use cndl.Base.{ℕ, zero, suc, ◌≡◌, refl, ap, List, [], ◌∷◌, Bytes, none, some, ok, err, error}
use cndl.Response.Types.{from_error, serialize}
use cndl.Websocket.Types.{Event, write, nothing}
use cndl.Http.Types.{Surroundings, endless}
use cndl.Http.Protocol.{read_header, go_on, try_block, handle, and_then, round, serve_loop}
use cndl.Http.Request.{start}
use cndl.Http.Next.{IsRefused}

abbrev pub repeated : ℕ → Bytes → List Event
repeated zero bytes = []
repeated (suc n) bytes = write bytes nothing ∷ repeated n bytes

module _ {Pattern : Type 0} (env : Surroundings Pattern) (received : Bytes)
    (r : IsRefused received) where
  read_header-IsRefused :
      read_header (start none received) ≡ (start none received, some (error r.code r.what))
  unfolding read_header
  read_header-IsRefused = rw (r.found, r.refused)

  try_block-IsRefused :
      try_block env (start none received)
      ≡ record { progress = start none received; events = []; result = err (error r.code r.what) }
  unfolding try_block
  try_block-IsRefused = ap (go_on env) read_header-IsRefused

  -- A complete header that `parse_header` refuses by an error with a code below 500, whose response
  -- can be sent, is never taken from the buffer: after any number of rounds the loop has sent that
  -- response once in each round, has consumed nothing, and goes on.
  pub serve_loop-IsRefused :
      (bytes : Bytes) (rounds : ℕ)
      → serialize (from_error r.code r.what env.dispatcher.error_body_generator) ≡ ok bytes
      → serve_loop env rounds (start none received)
        ≡ record { header = none; events = repeated rounds bytes; consumed = 0; ending = endless }
  unfolding serve_loop round handle and_then
  serve_loop-IsRefused bytes zero sent = refl
  serve_loop-IsRefused bytes (suc rounds) sent =
      rw (try_block-IsRefused, r.below, sent, serve_loop-IsRefused bytes rounds sent)
