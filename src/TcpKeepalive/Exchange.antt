-- ===== src/TcpKeepalive/Exchange.antt =====
-- tcp-keepalive/internal/client/client.go, `SendAndReceive` with `Send` and `Receive`. The goroutine
-- and the function that waits for it are two processes; their steps come in any order that the
-- channel and the deadline allow.
pub mod Laws
use neco_containers.Base.{
  ℕ, suc, String, ◌==◌, Bool, true, false, not, ◌≡◌, Result, ok, err, if◌then◌else◌,
}

-- The counters of internal/client/metrics.go that an exchange changes.
pub record Counters : Type 0 where
  pub send_success : ℕ
  pub send_error : ℕ
  pub send_timeout : ℕ
  pub receive_success : ℕ
  pub receive_error : ℕ
  pub receive_timeout : ℕ

abbrev pub client_message : String
client_message = "hello"

-- What a read of the connection gives: the text of the bytes that were read, or an error.
pub data Read (E : Type 0) : Type 0 where
  message : String → Read E
  eof : Read E
  closed : Read E
  failed : E → Read E

pub data Fault (E : Type 0) : Type 0 where
  got_eof : Fault E
  connection_closed : Fault E
  read_failed : E → Fault E
  write_failed : E → Fault E
  deadline_exceeded : Fault E

module _ {E : Type 0} where
  unfoldable pub send : Result E (Unit {0}) → Counters → Result (Fault E) (Unit {0}) × Counters
  send (ok u) c = (ok tt, record c { send_success = suc c.send_success })
  send (err e) c = (err (write_failed e), record c { send_error = suc c.send_error })

  unfoldable pub receive : Read E → Counters → Result (Fault E) (Unit {0}) × Counters
  receive (message msg) c =
      if not (msg == client_message)
      then (ok tt, record c { receive_error = suc c.receive_error })
      else (ok tt, record c { receive_success = suc c.receive_success })
  receive eof c = (err got_eof, record c { receive_error = suc c.receive_error })
  receive closed c = (err connection_closed, record c { receive_error = suc c.receive_error })
  receive (failed e) c = (err (read_failed e), record c { receive_error = suc c.receive_error })

-- Where the goroutine is: in Send, after it, in Receive, at the channel with a result, at its end.
pub data Worker (E : Type 0) : Type 0 where
  sending : Worker E
  sent : Worker E
  receiving : Worker E
  at_channel : Result (Fault E) (Unit {0}) → Worker E
  gone : Worker E

pub data Waiter (E : Type 0) : Type 0 where
  waiting : Waiter E
  returned : Result (Fault E) (Unit {0}) → Waiter E

pub record Exchange (E : Type 0) : Type 0 where
  pub worker : Worker E
  pub waiter : Waiter E
  pub send_done : Bool
  pub counters : Counters

unfoldable pub start : {E : Type 0} → Counters → Exchange E
start c = record { worker = sending; waiter = waiting; send_done = false; counters = c }

-- The case of the deadline.
unfoldable pub count_timeout : Bool → Counters → Counters
count_timeout send_done c =
    if not send_done
    then record c { send_timeout = suc c.send_timeout }
    else record c { receive_timeout = suc c.receive_timeout }

-- Where the goroutine goes from the result of Send.
unfoldable pub after_send : {E : Type 0} → Result (Fault E) (Unit {0}) → Worker E
after_send (ok u) = sent
after_send (err e) = at_channel (err e)

pub data Step {E : Type 0} : Exchange E → Exchange E → Type 0 where
  do_send :
      (x : Exchange E) (w : Result E (Unit {0}))
      → x.worker ≡ sending
      → Step x
          (record x { worker = after_send (send w x.counters).0; counters = (send w x.counters).1 })
  mark_sent :
      (x : Exchange E)
      → x.worker ≡ sent
      → Step x (record x { worker = receiving; send_done = true })
  do_receive :
      (x : Exchange E) (r : Read E)
      → x.worker ≡ receiving
      → Step x (record x {
        worker = at_channel (receive r x.counters).0;
        counters = (receive r x.counters).1;
      })
  deliver :
      (x : Exchange E) (r : Result (Fault E) (Unit {0}))
      → x.worker ≡ at_channel r
      → x.waiter ≡ waiting
      → Step x (record x { worker = gone; waiter = returned r })
  time_out :
      (x : Exchange E)
      → x.waiter ≡ waiting
      → Step x (record x {
        waiter = returned (err deadline_exceeded);
        counters = count_timeout x.send_done x.counters;
      })

pub data Reach {E : Type 0} (x : Exchange E) : Exchange E → Type 0 where
  here : Reach x x
  next : {y z : Exchange E} → Reach x y → Step y z → Reach x z
