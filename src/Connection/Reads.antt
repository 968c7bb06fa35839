-- ===== src/Connection/Reads.antt =====
-- How the stream of a websocket is cut into reads does not matter.
use cndl.Base.{ℕ, ◌≡◌, refl, sym, ap, ◌∙◌, true, false, List, ◌++◌, append_assoc, All, some}
use cndl.Websocket.Types.{Event, Websocket}
use cndl.Websocket.Receive.{Ending, Outcome, waits, on_data_received}
use cndl.Websocket.Stream.{prepend, on_data_received-IsSound}
use cndl.Websocket.Chunks.{on_data_received-append}
use cndl.Http.Types.{Surroundings}
use cndl.Connection.Protocols.{
  websocket, change_of_websocket, protocol_received, received_by_websocket,
}
use cndl.Connection.Handler.{
  RecvAnswer, Connection, Flags, returns, Application, change_protocol, leaving_of, take_in,
  on_readable, finish, on_event,
}
use cndl.Connection.Follows.{
  bytes_read, Succeeds, read_loop-eq, Follows, finish-Follows, retell, Follows-prepend,
}

-- An event that lets the protocol read.
pub record IsRead (flags : Flags) (answers : List RecvAnswer) : Type 0 where
  pub there : flags.hung_up ≡ false
  pub readable : flags.readable ≡ true
  pub succeeds : All Succeeds answers

module _ {Pattern : Type 0} (env : Surroundings Pattern) (app : Application) where
  take_in-Follows :
      (c : Connection) (ws : Websocket) (events : List Event) (consumed : ℕ) (ending : Ending)
      → let o : Outcome = record {
        socket = ws;
        events = events;
        consumed = consumed;
        ending = ending;
      } in
        Follows o c.in_buf (take_in env app c (received_by_websocket o))
  unfolding take_in
  take_in-Follows c ws events consumed Ending.waits = record {
    events = refl;
    leaving = refl;
    returned = λ h. (refl, refl);
  }
  take_in-Follows c ws events consumed Ending.stops = record {
    events = refl;
    leaving = refl;
    returned = λ h. (refl, refl);
  }
  take_in-Follows c ws events consumed Ending.stuck = record {
    events = refl;
    leaving = refl;
    returned = λ h. absurd cc;
  }
  take_in-Follows c ws events consumed (Ending.throws e) = record {
    events = refl;
    leaving = refl;
    returned = λ h. absurd cc;
  }

  pub on_event-Follows :
      (flags : Flags) (answers : List RecvAnswer) (c : Connection) (ws : Websocket)
      → IsRead flags answers
      → c.protocol ≡ some (websocket ws)
      → Follows
          (on_data_received ws (c.in_buf ++ bytes_read answers))
          (c.in_buf ++ bytes_read answers)
          (on_event env app flags answers c)
  unfolding on_event on_readable protocol_received take_in finish
  on_event-Follows flags answers c ws r is_ws =
      let all = c.in_buf ++ bytes_read answers in
      let o = on_data_received ws all in
      rw (r.there, r.readable, is_ws, read_loop-eq answers c.in_buf r.succeeds)
        (finish-Follows flags o all _
          (take_in-Follows (record c { in_buf = all }) o.socket o.events o.consumed o.ending))

  -- Two reads of a websocket, of which the first leaves it waiting, or one read of all the bytes: the
  -- calls on the handler and on the connection are the same in the same order, and so are the protocol
  -- behind them and the bytes that are kept, if the calls return.
  pub on_event-split :
      (flags flags1 flags2 : Flags) (answers answers1 answers2 : List RecvAnswer) (c : Connection)
      (ws : Websocket)
      → c.protocol ≡ some (websocket ws)
      → IsRead flags answers
      → IsRead flags1 answers1
      → IsRead flags2 answers2
      → bytes_read answers ≡ bytes_read answers1 ++ bytes_read answers2
      → (on_data_received ws (c.in_buf ++ bytes_read answers1)).ending ≡ waits
      → (on_event env app flags2 answers2 (on_event env app flags1 answers1 c).connection).leaving
        ≡ returns
      → let first = on_event env app flags1 answers1 c in
        let second = on_event env app flags2 answers2 first.connection in
        let whole = on_event env app flags answers c in
        (whole.events ≡ first.events ++ second.events)
        × (whole.leaving ≡ returns)
        × (whole.connection.protocol ≡ second.connection.protocol)
        × (whole.connection.in_buf ≡ second.connection.in_buf)
  on_event-split flags flags1 flags2 answers answers1 answers2 c ws is_ws r r1 r2 parts waiting
        back =
      let first = on_event env app flags1 answers1 c in
      let second = on_event env app flags2 answers2 first.connection in
      let whole = on_event env app flags answers c in
      let v = c.in_buf ++ bytes_read answers1 in
      let w = bytes_read answers2 in
      let o1 = on_data_received ws v in
      let u = first.connection.in_buf ++ w in
      let o2 = on_data_received o1.socket u in
      let f1 = on_event-Follows flags1 answers1 c ws r1 is_ws in
      let no_change = ap change_of_websocket waiting in
      let (became, left) = f1.returned (ap leaving_of no_change) in
      let same = became ∙ ap (λ e. change_protocol e (websocket o1.socket)) no_change in
      let f2 = on_event-Follows flags2 answers2 first.connection o1.socket r2 same in
      let f = on_event-Follows flags answers c ws r is_ws in
      let all : c.in_buf ++ bytes_read answers ≡ v ++ w =
        ap (λ t. c.in_buf ++ t) parts ∙ sym (append_assoc c.in_buf (bytes_read answers1) w) in
      let joined : on_data_received ws (c.in_buf ++ bytes_read answers)
          ≡ prepend o1.events o1.consumed o2 =
        ap (on_data_received ws) all
        ∙ on_data_received-append ws v w waiting
        ∙ ap (λ t. prepend o1.events o1.consumed (on_data_received o1.socket (t ++ w)))
            (sym left) in
      let (events, leaving, protocol, in_buf) =
        Follows-prepend o1.events o1.consumed o2 v w u whole second (retell whole joined all f) f2
          (ap (λ t. t ++ w) left) (on_data_received-IsSound ws v).0 back in
      (events ∙ ap (λ t. t ++ second.events) (sym f1.events), leaving, protocol, in_buf)
