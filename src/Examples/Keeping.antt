-- ===== src/Examples/Keeping.antt =====
-- tcp-keepalive, at exchanges that answer and that time out, and at short runs of the two loops.
use neco_containers.Base.{
  ◌≡◌, refl, nat_eq, String, true, false, some, ok, err, List, [], ◌∷◌, ◌++◌, pos, inl, inr, arith,
  if◌then◌else◌,
}
use neco_containers.TcpKeepalive.Exchange.{
  Counters, Exchange, message, Worker, at_channel, receiving, sent, gone, waiting, returned,
  deadline_exceeded, start, do_send, mark_sent, do_receive, deliver, time_out, Reach, here, next,
  send, receive, after_send, count_timeout,
}
use neco_containers.TcpKeepalive.Exchange.Laws.{
  ReturnCounts, Reach-ReturnCounts, is_gone, Reach-leak,
}
use neco_containers.TcpKeepalive.Client.{
  State, Attempt, retry_limit_exceeded, stopped, send_by_period, run_client,
}
use neco_containers.TcpKeepalive.Client.Laws.{IsFailing, run_client_gives_up, run_client_stops}
use neco_containers.TcpKeepalive.Server.{State as ServerState, Turn, handle}
use neco_containers.TcpKeepalive.Server.Laws.{ServedIsEcho, texts, handle-IsEcho}

abbrev zeros : Counters
zeros = record {
  send_success = 0;
  send_error = 0;
  send_timeout = 0;
  receive_success = 0;
  receive_error = 0;
  receive_timeout = 0;
}

abbrev begun : Exchange String
begun = record { worker = Worker.sending; waiter = waiting; send_done = false; counters = zeros }

abbrev after_sending : Exchange String
after_sending = record begun { worker = sent; counters = record zeros { send_success = 1 } }

abbrev listening : Exchange String
listening = record after_sending { worker = receiving; send_done = true }

abbrev answered : Exchange String
answered = record listening {
  worker = at_channel (ok tt);
  counters = record zeros { send_success = 1; receive_success = 1 };
}

abbrev done : Exchange String
done = record answered { worker = gone; waiter = returned (ok tt) }

abbrev late : Exchange String
late = record listening {
  waiter = returned (err deadline_exceeded);
  counters = record zeros { send_success = 1; receive_timeout = 1 };
}

to_listening : Reach (start zeros) listening
unfolding start send after_send
to_listening = next (next here (do_send begun (ok tt) refl)) (mark_sent after_sending refl)

to_done : Reach (start zeros) done
unfolding receive
to_done =
    next (next to_listening (do_receive listening (message "hello") refl))
      (deliver answered (ok tt) refl refl)

to_late : Reach (start zeros) late
unfolding count_timeout
to_late = next to_listening (time_out listening refl)

Reach-ReturnCounts_example : ReturnCounts {E = String} zeros (ok tt) done.counters
Reach-ReturnCounts_example = Reach-ReturnCounts zeros done (ok tt) to_done refl

Reach-leak_example : is_gone late.worker ≡ false
Reach-leak_example = Reach-leak zeros late late to_late refl here

abbrev new_state : State
new_state = record {
  has_conn = false;
  gauges = record { unestablished = 0; established = 0; closed = 0 };
  retry_total = 0;
  retry_count = 0;
}

abbrev refused : Attempt String
refused = record {
  cancelled = false;
  resolved = ok tt;
  dialed = err "connection refused";
  exchanges = [];
}

abbrev working : Attempt String
working = record {
  cancelled = false;
  resolved = ok tt;
  dialed = ok tt;
  exchanges = (ok tt, false) ∷ (ok tt, true) ∷ [];
}

abbrev ended : Attempt String
ended = record refused { cancelled = true }

run_client_gives_up_example :
    (st : State) × (run_client (pos 1) (refused ∷ refused ∷ []) new_state
      ≡ some (retry_limit_exceeded, st))
    × (st.retry_total ≡ 2)
run_client_gives_up_example =
    let fails : IsFailing refused = (refl, inr (inl ("connection refused", refl))) in
    run_client_gives_up 1 (refused ∷ refused ∷ []) new_state (fails, (fails, tt)) (omega arith)

run_client_stops_example :
    (st : State) × (run_client (pos 0) ([] ++ working ∷ ended ∷ []) new_state
      ≡ some ((if nat_eq 0 0 then retry_limit_exceeded else stopped), st))
unfolding send_by_period
run_client_stops_example =
    run_client_stops 0 [] working ended [] new_state tt (omega arith) (refl, refl, refl, refl) refl

abbrev quiet : ServerState
quiet = record {
  receive_success = 0;
  receive_error = 0;
  send_success = 0;
  send_error = 0;
  written = [];
}

abbrev turns : List (Turn String)
turns =
    record { read = message "hello"; write = ok tt; is_done = false }
    ∷ record { read = message "hello"; write = err "broken pipe"; is_done = false }
    ∷ record { read = message "late"; write = ok tt; is_done = false }
    ∷ record { read = message "unread"; write = ok tt; is_done = false }
    ∷ []

handle-IsEcho_example : ServedIsEcho (texts turns) quiet (handle turns quiet)
handle-IsEcho_example = handle-IsEcho turns quiet
