-- ===== src/TcpKeepalive/Server.antt =====
-- tcp-keepalive/internal/server/server.go, `Handle` with `handle`, `Recieve` and `Send`, on one
-- connection, with the turn that the goroutine of `Handle` begins after its last result was taken.
pub mod Laws
use neco_containers.Base.{
  ℕ, suc, String, Bool, true, false, Result, ok, err, List, [], ◌∷◌, ◌++◌, if◌then◌else◌,
}
use neco_containers.TcpKeepalive.Exchange.{
  Read, message, eof, closed, failed, Fault, got_eof, connection_closed, read_failed, write_failed,
}

-- The counters, and what was written to the connection without an error.
pub record State : Type 0 where
  pub receive_success : ℕ
  pub receive_error : ℕ
  pub send_success : ℕ
  pub send_error : ℕ
  pub written : List String

-- One turn: what the read gives, what the write gives, and whether the select takes the end of the
-- context before the result of this turn.
pub record Turn (E : Type 0) : Type 0 where
  pub read : Read E
  pub write : Result E (Unit {0})
  pub is_done : Bool

-- Where a connection stands when the turns are over: `Handle` still serves it; `Handle` has returned,
-- and the goroutine is in a further turn; or that turn has ended, and the goroutine waits for ever
-- to hand over its result.
pub data Served (E : Type 0) : Type 0 where
  serving : State → Served E
  returned stuck : Result (Fault E) (Unit {0}) → State → Served E

module _ {E : Type 0} where
  refuse : Fault E → State → Result (Fault E) String × State
  refuse e st = (err e, record st { receive_error = suc st.receive_error })

  unfoldable pub receive : Read E → State → Result (Fault E) String × State
  unfolding refuse
  receive (message msg) st = (ok msg, record st { receive_success = suc st.receive_success })
  receive eof st = refuse got_eof st
  receive closed st = refuse connection_closed st
  receive (failed e) st = refuse (read_failed e) st

  unfoldable pub send : String → Result E (Unit {0}) → State → Result (Fault E) (Unit {0}) × State
  send msg (ok u) st =
      (ok tt, record st { send_success = suc st.send_success; written = st.written ++ msg ∷ [] })
  send msg (err e) st = (err (write_failed e), record st { send_error = suc st.send_error })

  send_back :
      Result E (Unit {0}) → Result (Fault E) String × State → Result (Fault E) (Unit {0}) × State
  unfolding send
  send_back w (err e, st) = (err e, st)
  send_back w (ok msg, st) = send msg w st

  -- `handle`: one message and its answer.
  unfoldable pub handle_one : Turn E → State → Result (Fault E) (Unit {0}) × State
  unfolding receive send_back
  handle_one t st = send_back t.write (receive t.read st)

  -- The turn that the goroutine begins after `Handle` took the result.
  unfoldable pub go_on : Result (Fault E) (Unit {0}) → State → List (Turn E) → Served E
  go_on r st [] = returned r st
  go_on r st (t ∷ ts) = stuck r (handle_one t st).1

  -- `Handle`: an error ends it, and so does the end of the context, with the result of the turn that
  -- is under way.
  unfoldable pub handle : List (Turn E) → State → Served E
  unfolding go_on
  handle [] st = serving st
  handle (t ∷ ts) st =
      let (r, st') = handle_one t st in
      let next : Served E = elim r [ err e ↦ go_on (err e) st' ts | ok u ↦ handle ts st' ] in
      if t.is_done then go_on r st' ts else next
