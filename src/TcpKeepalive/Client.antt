-- ===== src/TcpKeepalive/Client.antt =====
-- tcp-keepalive/internal/client/client.go, `Run` with `run`, `Dial`, `Close` and `SendByPeriod`, over
-- what the context, the network and the exchanges give. `none` is a run that has not ended yet.
pub mod Laws
pub mod ConnState
use neco_containers.Base.{
  ℕ, suc, ◌+◌, ◌%◌, ◌^◌, leb, ℤ, pos, negsuc, Bool, true, false, Option, none, some, Result, ok,
  err, List, [], ◌∷◌, if◌then◌else◌,
}

-- The gauges of the state of the connection.
pub record Gauges : Type 0 where
  pub unestablished : ℕ
  pub established : ℕ
  pub closed : ℕ

unfoldable pub set_conn_state_unestablished : Gauges
set_conn_state_unestablished = record { unestablished = 1; established = 0; closed = 0 }

unfoldable pub set_conn_state_established : Gauges
set_conn_state_established = record { unestablished = 0; established = 1; closed = 0 }

unfoldable pub set_conn_state_closed : Gauges
set_conn_state_closed = record { unestablished = 0; established = 0; closed = 1 }

-- `has_conn` is c.conn != nil.
pub record State : Type 0 where
  pub has_conn : Bool
  pub gauges : Gauges
  pub retry_total : ℕ
  pub retry_count : ℕ

-- What one turn of a loop of `Run` meets: whether the context is done at the test, the results of
-- ResolveTCPAddr and DialTCP, and the results of the exchanges, each with whether the context is done
-- after it.
pub record Attempt (E : Type 0) : Type 0 where
  pub cancelled : Bool
  pub resolved : Result E (Unit {0})
  pub dialed : Result E (Unit {0})
  pub exchanges : List (Result E (Unit {0}) × Bool)

pub data End (E : Type 0) : Type 0 where
  stopped : End E
  retry_limit_exceeded : End E

module _ {E : Type 0} where
  unfoldable pub after_dial : Result E (Unit {0}) → State → Result E (Unit {0}) × State
  unfolding set_conn_state_established
  after_dial (ok u) st = (ok tt, record st { has_conn = true; gauges = set_conn_state_established })
  after_dial (err e) st = (err e, record st { has_conn = false })

  unfoldable pub dial : Attempt E → State → Result E (Unit {0}) × State
  unfolding after_dial
  dial a st = elim a.resolved [ err e ↦ (err e, st) | ok u ↦ after_dial a.dialed st ]

  unfoldable pub send_by_period : List (Result E (Unit {0}) × Bool) → Option (Result E (Unit {0}))
  send_by_period [] = none
  send_by_period ((err e, is_done) ∷ xs) = some (err e)
  send_by_period ((ok u, is_done) ∷ xs) =
      let rest = send_by_period xs in if is_done then some (ok tt) else rest

unfoldable pub close : State → State
unfolding set_conn_state_closed
close st = if st.has_conn then record st { gauges = set_conn_state_closed } else st

module _ {E : Type 0} where
  close_after : Option (Result E (Unit {0})) → State → Option (Result E (Unit {0}) × State)
  unfolding close
  close_after none st = none
  close_after (some r) st = some (r, close st)

  send_after :
      List (Result E (Unit {0}) × Bool)
      → Result E (Unit {0}) × State
      → Option (Result E (Unit {0}) × State)
  unfolding close_after send_by_period
  send_after xs (err e, st) = some (err e, st)
  send_after xs (ok u, st) = close_after (send_by_period xs) st

  unfoldable pub run : Attempt E → State → Option (Result E (Unit {0}) × State)
  unfolding send_after dial
  run a st = send_after a.exchanges (dial a st)

  -- The loop with a limit, at the given number of the attempt. The limit is less than 2^63 - 1, the
  -- greatest int, behind which `i++` would wrap around.
  unfoldable pub retry_loop : ℕ → ℕ → List (Attempt E) → State → Option (End E × State)
  retry_loop n i [] st = if leb i n then none else some (retry_limit_exceeded, st)
  retry_loop n i (a ∷ rest) st =
      let counted = record st { retry_count = i } in
      let next : Option (End E × State) = elim (run a counted) [
        | none ↦ none
        | some (err e, st') ↦
            retry_loop n (suc i) rest (record st' { retry_total = (st'.retry_total + 1) % 2 ^ 64 })
        | some (ok u, st') ↦ retry_loop n 1 rest st'
      ] in
      if leb i n
      then if a.cancelled then some (stopped, counted) else next
      else some (retry_limit_exceeded, st)

  -- The loop without a limit, which counts in a uint64.
  unfoldable pub forever : ℕ → List (Attempt E) → State → Option (End E × State)
  forever cnt [] st = none
  forever cnt (a ∷ rest) st =
      let next : Option (End E × State) =
        elim (run a (record st { retry_total = cnt; retry_count = cnt })) [
          | none ↦ none
          | some (r, st') ↦ forever ((cnt + 1) % 2 ^ 64) rest st'
        ] in
      if a.cancelled then some (stopped, st) else next

  unfoldable pub run_client : ℤ → List (Attempt E) → State → Option (End E × State)
  unfolding retry_loop forever set_conn_state_unestablished
  run_client (pos n) attempts st =
      retry_loop n 0 attempts (record st { gauges = set_conn_state_unestablished })
  run_client (negsuc n) attempts st =
      forever 0 attempts (record st { gauges = set_conn_state_unestablished })
