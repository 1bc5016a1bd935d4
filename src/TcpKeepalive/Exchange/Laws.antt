-- ===== src/TcpKeepalive/Exchange/Laws.antt =====
-- What every order of the steps of an exchange keeps.
use neco_containers.Base.{
  ℕ, suc, ◌+◌, ◌⊎◌, inl, inr, ◌≡◌, refl, Bool, true, false, ◌==◌, Bool-cases, Result, ok, err,
  arith, if◌then◌else◌,
}
use neco_containers.TcpKeepalive.Exchange.{
  Counters, client_message, got_eof, connection_closed, read_failed, write_failed,
  deadline_exceeded, Read, message, eof, closed, failed, Fault, send, receive, Worker, sending,
  sent, receiving, at_channel, gone, Waiter, waiting, returned, Exchange, start, count_timeout,
  after_send, Step, do_send, mark_sent, do_receive, deliver, time_out, Reach, here, next,
}

-- How many sends, receives and timeouts an exchange has counted.
abbrev pub sends : Counters → ℕ
sends c = c.send_success + c.send_error

abbrev pub receives : Counters → ℕ
receives c = c.receive_success + c.receive_error

abbrev pub timeouts : Counters → ℕ
timeouts c = c.send_timeout + c.receive_timeout

-- How the counters of sends and responses have grown: by so many that succeeded and that failed.
abbrev pub GrewBy : ℕ → ℕ → ℕ → ℕ → Counters → Counters → Type 0
GrewBy ss se rs re c d =
    (d.send_success ≡ ss + c.send_success)
    × (d.send_error ≡ se + c.send_error)
    × (d.receive_success ≡ rs + c.receive_success)
    × (d.receive_error ≡ re + c.receive_error)

timeouts-count_timeout : (b : Bool) (d : Counters) → timeouts (count_timeout b d) ≡ suc (timeouts d)
unfolding count_timeout
timeouts-count_timeout true d = omega arith
timeouts-count_timeout false d = omega arith

unfoldable pub is_gone : {E : Type 0} → Worker E → Bool
is_gone sending = false
is_gone sent = false
is_gone receiving = false
is_gone (at_channel r) = false
is_gone gone = true

module _ {E : Type 0} (c : Counters) where
  -- What is counted for the result of the goroutine: a send that succeeded and one response, or the
  -- one operation that failed.
  unfoldable pub FaultCounts : Fault E → Counters → Type 0
  FaultCounts (write_failed e) d = GrewBy 0 1 0 0 c d
  FaultCounts deadline_exceeded d = ⊥
  FaultCounts got_eof d = GrewBy 1 0 0 1 c d
  FaultCounts connection_closed d = GrewBy 1 0 0 1 c d
  FaultCounts (read_failed e) d = GrewBy 1 0 0 1 c d

  unfoldable pub ResultCounts : Result (Fault E) (Unit {0}) → Counters → Type 0
  unfolding FaultCounts
  ResultCounts (ok u) d = GrewBy 1 0 1 0 c d ⊎ GrewBy 1 0 0 1 c d
  ResultCounts (err e) d = FaultCounts e d

  WorkerCounts : Worker E → Counters → Type 0
  unfolding ResultCounts
  WorkerCounts sending d = GrewBy 0 0 0 0 c d
  WorkerCounts sent d = GrewBy 1 0 0 0 c d
  WorkerCounts receiving d = GrewBy 1 0 0 0 c d
  WorkerCounts (at_channel r) d = ResultCounts r d
  WorkerCounts gone d = Unit

  WaiterCounts : Waiter E → Worker E → Counters → Type 0
  unfolding ResultCounts is_gone
  WaiterCounts waiting w d = (timeouts d ≡ timeouts c) × (is_gone w ≡ false)
  WaiterCounts (returned r) w d =
      if is_gone w
      then ResultCounts r d × (timeouts d ≡ timeouts c)
      else (r ≡ err deadline_exceeded) × (timeouts d ≡ suc (timeouts c))

  IsKept : Exchange E → Type 0
  unfolding WorkerCounts WaiterCounts
  IsKept x = WorkerCounts x.worker x.counters × WaiterCounts x.waiter x.worker x.counters

  send-counts :
      (w : Result E (Unit {0})) (d : Counters)
      → GrewBy 0 0 0 0 c d
      → WorkerCounts (after_send (send w d).0) (send w d).1
        × (timeouts (send w d).1 ≡ timeouts d)
        × (is_gone (after_send (send w d).0) ≡ false)
  unfolding send after_send WorkerCounts is_gone
  send-counts (ok u) d h = ((omega (arith, h.0), h.1, h.2, h.3), refl, refl)
  send-counts (err e) d h = ((h.0, omega (arith, h.1), h.2, h.3), refl, refl)

  receive-counts :
      (r : Read E) (d : Counters)
      → GrewBy 1 0 0 0 c d
      → ResultCounts (receive r d).0 (receive r d).1 × (timeouts (receive r d).1 ≡ timeouts d)
  unfolding receive ResultCounts
  receive-counts (message msg) d h = elim (Bool-cases (msg == client_message)) [
    | inl e ↦ rw (e, receive) (inl (h.0, h.1, omega (arith, h.2), h.3), refl)
    | inr e ↦ rw (e, receive) (inr (h.0, h.1, h.2, omega (arith, h.3)), refl)
  ]
  receive-counts eof d h = ((h.0, h.1, h.2, omega (arith, h.3)), refl)
  receive-counts closed d h = ((h.0, h.1, h.2, omega (arith, h.3)), refl)
  receive-counts (failed e) d h = ((h.0, h.1, h.2, omega (arith, h.3)), refl)

  -- A step of the goroutine that counts no timeout.
  WaiterCounts-step :
      (v : Waiter E) (w w' : Worker E) (d d' : Counters)
      → is_gone w ≡ false
      → is_gone w' ≡ false
      → timeouts d' ≡ timeouts d
      → WaiterCounts v w d
      → WaiterCounts v w' d'
  unfolding WaiterCounts
  WaiterCounts-step waiting w w' d d' e f t h = (omega (arith, t, h.0), f)
  WaiterCounts-step (returned r) w w' d d' e f t h =
      let (i, j) = rw e at h in rw f (i, omega (arith, t, j))

  -- What is counted of sends and responses does not depend on the timeouts.
  FaultCounts-timeout :
      (e : Fault E) (b : Bool) (d : Counters) → FaultCounts e d → FaultCounts e (count_timeout b d)
  unfolding FaultCounts count_timeout
  FaultCounts-timeout (write_failed e) b d h = ground (arith, h.0, h.1, h.2, h.3)
  FaultCounts-timeout (read_failed e) b d h = ground (arith, h.0, h.1, h.2, h.3)
  FaultCounts-timeout got_eof b d h = ground (arith, h.0, h.1, h.2, h.3)
  FaultCounts-timeout connection_closed b d h = ground (arith, h.0, h.1, h.2, h.3)
  FaultCounts-timeout deadline_exceeded b d h = absurd h

  ResultCounts-timeout :
      (r : Result (Fault E) (Unit {0})) (b : Bool) (d : Counters)
      → ResultCounts r d
      → ResultCounts r (count_timeout b d)
  unfolding ResultCounts count_timeout
  ResultCounts-timeout (ok u) true d h = h
  ResultCounts-timeout (ok u) false d h = h
  ResultCounts-timeout (err e) b d h = FaultCounts-timeout e b d h

  WorkerCounts-timeout :
      (w : Worker E) (b : Bool) (d : Counters)
      → WorkerCounts w d
      → WorkerCounts w (count_timeout b d)
  unfolding WorkerCounts count_timeout
  WorkerCounts-timeout sending b d h = ground (arith, h.0, h.1, h.2, h.3)
  WorkerCounts-timeout sent b d h = ground (arith, h.0, h.1, h.2, h.3)
  WorkerCounts-timeout receiving b d h = ground (arith, h.0, h.1, h.2, h.3)
  WorkerCounts-timeout (at_channel r) b d h = ResultCounts-timeout r b d h
  WorkerCounts-timeout gone b d h = tt

  Step-IsKept : {x y : Exchange E} → Step x y → IsKept x → IsKept y
  unfolding IsKept WorkerCounts WaiterCounts is_gone
  Step-IsKept (do_send x w e) h =
      let (i, t, g) = send-counts w x.counters (rw e at h.0) in
      (
        i,
        WaiterCounts-step x.waiter sending (after_send (send w x.counters).0) x.counters
            (send w x.counters).1 refl g t (rw e at h.1),
      )
  Step-IsKept (mark_sent x e) h = (
    rw e at h.0,
    WaiterCounts-step x.waiter sent receiving x.counters x.counters refl refl refl (rw e at h.1),
  )
  Step-IsKept (do_receive x r e) h =
      let (i, t) = receive-counts r x.counters (rw e at h.0) in
      (
        i,
        WaiterCounts-step x.waiter receiving (at_channel (receive r x.counters).0) x.counters
            (receive r x.counters).1 refl refl t (rw e at h.1),
      )
  Step-IsKept (deliver x r e f) h = (tt, (rw e at h.0, (rw f at h.1).0))
  Step-IsKept (time_out x f) h =
      let (t, g) = rw f at h.1 in
      (
        WorkerCounts-timeout x.worker x.send_done x.counters h.0,
        rw g (refl, omega (arith, t, timeouts-count_timeout x.send_done x.counters)),
      )

  Reach-IsKept : {x y : Exchange E} → IsKept x → Reach x y → IsKept y
  Reach-IsKept h here = h
  Reach-IsKept h (next r s) = Step-IsKept s (Reach-IsKept h r)

  Reach-WaiterCounts :
      (x : Exchange E) → Reach (start c) x → WaiterCounts x.waiter x.worker x.counters
  unfolding IsKept WorkerCounts WaiterCounts is_gone start
  Reach-WaiterCounts x p =
      let s : IsKept (start {E = E} c) =
        ((omega arith, omega arith, omega arith, omega arith), (refl, refl)) in
      (Reach-IsKept s p).1

  unfoldable pub ReturnCounts : Result (Fault E) (Unit {0}) → Counters → Type 0
  unfolding ResultCounts
  ReturnCounts r d =
      (ResultCounts r d × (timeouts d ≡ timeouts c))
      ⊎ ((r ≡ err deadline_exceeded) × (timeouts d ≡ suc (timeouts c)))

  -- In whatever order the goroutine, the channel and the deadline act: when the exchange has
  -- returned, either it returned the goroutine's result and counted exactly that, which is one send
  -- that succeeded with one response, one send that failed, or one send that succeeded with a
  -- response that failed, and no timeout; or it returned that the deadline is exceeded and counted
  -- exactly one timeout.
  pub Reach-ReturnCounts :
      (x : Exchange E) (r : Result (Fault E) (Unit {0}))
      → Reach (start c) x
      → x.waiter ≡ returned r
      → ReturnCounts r x.counters
  unfolding WaiterCounts ReturnCounts
  Reach-ReturnCounts x r p e =
      let h = rw e at (Reach-WaiterCounts x p) in
      elim (Bool-cases (is_gone x.worker)) [ inl g ↦ inl (rw g at h) | inr g ↦ inr (rw g at h) ]

module _ {E : Type 0} where
  -- The exchange has returned, and the goroutine has not ended.
  IsLeaked : Exchange E → Type 0
  unfolding is_gone
  IsLeaked x =
      ((r : Result (Fault E) (Unit {0})) × (x.waiter ≡ returned r)) × (is_gone x.worker ≡ false)

  Waiter-conflict :
      {r : Result (Fault E) (Unit {0})} (v : Waiter E) → v ≡ waiting → v ≡ returned r → ⊥
  Waiter-conflict v e f = cc

  not_sent : (w : Result E (Unit {0})) (c : Counters) → is_gone (after_send (send w c).0) ≡ false
  unfolding send after_send is_gone
  not_sent (ok u) c = refl
  not_sent (err e) c = refl

  Step-IsLeaked : {x y : Exchange E} → Step x y → IsLeaked x → IsLeaked y
  unfolding IsLeaked is_gone
  Step-IsLeaked (do_send x w e) h = (h.0, not_sent w x.counters)
  Step-IsLeaked (mark_sent x e) h = (h.0, refl)
  Step-IsLeaked (do_receive x r e) h = (h.0, refl)
  Step-IsLeaked (deliver x r e f) h = absurd (Waiter-conflict x.waiter f h.0.1)
  Step-IsLeaked (time_out x f) h = ((err deadline_exceeded, refl), h.1)

  Reach-IsLeaked : {x y : Exchange E} → IsLeaked x → Reach x y → IsLeaked y
  Reach-IsLeaked h here = h
  Reach-IsLeaked h (next r s) = Step-IsLeaked s (Reach-IsLeaked h r)

  -- The goroutine of an exchange that returned that the deadline is exceeded never ends: nothing
  -- receives its result any more.
  pub Reach-leak :
      (c : Counters) (x y : Exchange E)
      → Reach (start c) x
      → x.waiter ≡ returned (err deadline_exceeded)
      → Reach x y
      → is_gone y.worker ≡ false
  unfolding IsLeaked WaiterCounts ResultCounts FaultCounts
  Reach-leak c x y p e q =
      let h = rw e at (Reach-WaiterCounts c x p) in
      elim (Bool-cases (is_gone x.worker)) [
        | inl g ↦ absurd (rw g at h).0
        | inr g ↦ (Reach-IsLeaked ((err deadline_exceeded, e), g) q).1
      ]
