-- ===== src/TcpKeepalive/Server/Laws.antt =====
-- A connection is answered with what it sends.
use neco_containers.Base.{
  ℕ, suc, ◌+◌, ◌≤◌, ◌≡◌, refl, sym, ap, ap₂, subst, ◌∙◌, String, inl, inr, Result, ok, err, List,
  [], ◌∷◌, ◌++◌, length, length-append, Bool-cases, Result-cases, arith,
}
use mathlib.Core.List.{append_assoc, append-nil}
use neco_containers.TcpKeepalive.Exchange.{Read, message, eof, closed, failed, Fault}
use neco_containers.TcpKeepalive.Server.{
  State, Turn, Served, serving, returned, stuck, refuse, receive, send, send_back, handle_one,
  go_on, handle,
}

-- The answers were written, in their order; the counter of the sends grew by their number, and as
-- many messages were received as were answered or counted as a failed send.
abbrev pub Answers : List String → State → State → Type 0
Answers answers s t =
    (t.written ≡ s.written ++ answers)
    × (t.send_success ≡ s.send_success + length answers)
    × (t.receive_success + s.send_success + s.send_error
        ≡ s.receive_success + t.send_success + t.send_error)

Answers-append :
    (s t u : State) (xs ys : List String) → Answers xs s t → Answers ys t u → Answers (xs ++ ys) s u
Answers-append s t u xs ys (w, a, b) (x, c, d) = (
  x ∙ ap (λ l. l ++ ys) w ∙ append_assoc s.written xs ys,
  omega (arith, a, c, length-append xs ys),
  omega (arith, a, b, c, d),
)

none_sent :
    (s t : State)
    → t.written ≡ s.written
    → t.send_success ≡ s.send_success
    → t.receive_success + s.send_error ≡ s.receive_success + t.send_error
    → Answers [] s t
none_sent s t w a b = (w ∙ sym (append-nil s.written), omega (arith, a), omega (arith, a, b))

append-split :
    (xs ys zs us vs : List String) → xs ≡ ys ++ zs → us ≡ vs → xs ++ us ≡ ys ++ (zs ++ vs)
append-split xs ys zs us vs e f = ap₂ ◌++◌ e f ∙ append_assoc ys zs vs

module _ {E : Type 0} where
  text_of : Read E → List String
  text_of (message msg) = msg ∷ []
  text_of eof = []
  text_of closed = []
  text_of (failed e) = []

  -- The messages that arrive on a connection.
  unfoldable pub texts : List (Turn E) → List String
  unfolding text_of
  texts [] = []
  texts (t ∷ ts) = text_of t.read ++ texts ts

  abbrev pub errors : Result (Fault E) (Unit {0}) → ℕ
  errors (ok u) = 0
  errors (err e) = 1

  -- After `Handle` returned `r`: the messages are those that were answered before it returned, the
  -- one that was lost, the one that was answered after it returned, and those left. None was lost
  -- where `r` is no error.
  abbrev pub Ended : List String → State → Result (Fault E) (Unit {0}) → State → ℕ → Type 0
  Ended arrived s r t turns =
      (answered : List String) × (lost : List String) × (late : List String) × (rest : List String)
      × (arrived ≡ answered ++ (lost ++ (late ++ rest)))
      × Answers (answered ++ late) s t
      × (length lost ≤ errors r)
      × (length late ≤ turns)

  abbrev pub ServedIsEcho : List String → State → Served E → Type 0
  ServedIsEcho arrived s (serving t) = Answers arrived s t
  ServedIsEcho arrived s (returned r t) = Ended arrived s r t 0
  ServedIsEcho arrived s (stuck r t) = Ended arrived s r t 1

  -- What one turn does: it answers its message, or it answers nothing and has an error.
  TurnIsEcho : Read E → State → Result (Fault E) (Unit {0}) × State → Type 0
  unfolding text_of
  TurnIsEcho i s (r, t) =
      (answers : List String) × (lost : List String) × (text_of i ≡ answers ++ lost)
      × Answers answers s t
      × (length lost ≤ errors r)
      × (length answers ≤ 1)

  answer-TurnIsEcho :
      (msg : String) (w : Result E (Unit {0})) (s : State)
      → TurnIsEcho
          (message msg)
          s
          (send msg w (record s { receive_success = suc s.receive_success }))
  unfolding TurnIsEcho send text_of
  answer-TurnIsEcho msg (ok u) s =
      (msg ∷ [], [], refl, (refl, omega arith, omega arith), omega arith, omega arith)
  answer-TurnIsEcho msg (err e) s = (
    [],
    msg ∷ [],
    refl,
    (sym (append-nil s.written), omega arith, omega arith),
    omega arith,
    omega arith,
  )

  read-TurnIsEcho :
      (i : Read E) (w : Result E (Unit {0})) (s : State)
      → TurnIsEcho i s (send_back w (receive i s))
  unfolding send_back receive refuse TurnIsEcho text_of
  read-TurnIsEcho (message msg) w s = answer-TurnIsEcho msg w s
  read-TurnIsEcho eof w s = (
    [],
    [],
    refl,
    none_sent s (record s { receive_error = suc s.receive_error }) refl refl refl,
    omega arith,
    omega arith,
  )
  read-TurnIsEcho closed w s = (
    [],
    [],
    refl,
    none_sent s (record s { receive_error = suc s.receive_error }) refl refl refl,
    omega arith,
    omega arith,
  )
  read-TurnIsEcho (failed e) w s = (
    [],
    [],
    refl,
    none_sent s (record s { receive_error = suc s.receive_error }) refl refl refl,
    omega arith,
    omega arith,
  )

  -- A turn without an error answers what it reads.
  Answers-text_of :
      (i : Read E) (u : Unit {0}) (s t : State) → TurnIsEcho i s (ok u, t) → Answers (text_of i) s t
  unfolding TurnIsEcho
  Answers-text_of i u s t (answers, [], e, a, l, m) =
      subst (λ xs. Answers xs s t) (sym (e ∙ append-nil answers)) a
  Answers-text_of i u s t (answers, x ∷ lost, e, a, l, m) = absurd (omega (arith, l))

  Ended-cons :
      (r : Result (Fault E) (Unit {0})) (s t v : State) (xs arrived : List String) (turns : ℕ)
      → Answers xs s t
      → Ended arrived t r v turns
      → Ended (xs ++ arrived) s r v turns
  Ended-cons r s t v xs arrived turns a (answered, lost, late, rest, e, b, l, m) = (
    xs ++ answered,
    lost,
    late,
    rest,
    ap (λ ys. xs ++ ys) e ∙ sym (append_assoc xs answered (lost ++ (late ++ rest))),
    subst (λ ys. Answers ys s v) (sym (append_assoc xs answered late))
        (Answers-append s t v xs (answered ++ late) a b),
    l,
    m,
  )

  served-IsEcho :
      (i : Read E) (u : Unit {0}) (s t : State) (arrived : List String) (o : Served E)
      → TurnIsEcho i s (ok u, t)
      → ServedIsEcho arrived t o
      → ServedIsEcho (text_of i ++ arrived) s o
  served-IsEcho i u s t arrived (serving v) h k =
      Answers-append s t v (text_of i) arrived (Answers-text_of i u s t h) k
  served-IsEcho i u s t arrived (returned r v) h k =
      Ended-cons r s t v (text_of i) arrived 0 (Answers-text_of i u s t h) k
  served-IsEcho i u s t arrived (stuck r v) h k =
      Ended-cons r s t v (text_of i) arrived 1 (Answers-text_of i u s t h) k

  go_on-IsEcho :
      (i : Read E) (r : Result (Fault E) (Unit {0})) (s t : State) (turns : List (Turn E))
      → TurnIsEcho i s (r, t)
      → ServedIsEcho (text_of i ++ texts turns) s (go_on r t turns)
  unfolding TurnIsEcho go_on texts handle_one
  go_on-IsEcho i r s t [] (answers, lost, e, a, l, m) = (
    answers,
    lost,
    [],
    [],
    append-split (text_of i) answers lost [] [] e refl,
    subst (λ xs. Answers xs s t) (sym (append-nil answers)) a,
    l,
    omega arith,
  )
  go_on-IsEcho i r s t (x ∷ xs) (answers, lost, e, a, l, m) =
      let (late, unsent, f, b, n, o) = read-TurnIsEcho x.read x.write t in
      (
        answers,
        lost,
        late,
        unsent ++ texts xs,
        append-split (text_of i) answers lost (texts (x ∷ xs)) (late ++ (unsent ++ texts xs)) e
            (append-split (text_of x.read) late unsent (texts xs) (texts xs) f refl),
        Answers-append s t (handle_one x t).1 answers late a b,
        l,
        o,
      )

  -- As long as a connection is served, each message that arrived on it was answered, in their
  -- order. When `Handle` has returned, at most one message was left out, and only where it returned
  -- an error; at most one more was answered, by the turn that its goroutine had begun, after which
  -- no other is. The counter of the sends grew by the number of answers, and each message received
  -- was answered or counted as a send that failed.
  pub handle-IsEcho :
      (turns : List (Turn E)) (s : State) → ServedIsEcho (texts turns) s (handle turns s)
  unfolding handle handle_one texts
  handle-IsEcho [] s = (sym (append-nil s.written), omega arith, omega arith)
  handle-IsEcho (x ∷ xs) s =
      let one = read-TurnIsEcho x.read x.write s in
      let (r, t) = handle_one x s in
      elim (Bool-cases x.is_done) [
        | inl d ↦ rw (handle, d) (go_on-IsEcho x.read r s t xs one)
        | inr d ↦ elim (Result-cases (handle_one x s).0) [
          | inl (u, e) ↦
              rw (handle, d, e)
                (served-IsEcho x.read u s t (texts xs) (handle xs t)
                  (subst (λ v. TurnIsEcho x.read s (v, t)) e one) (handle-IsEcho xs t))
          | inr (f, e) ↦
              rw (handle, d, e)
                (go_on-IsEcho x.read (err f) s t xs (subst (λ v. TurnIsEcho x.read s (v, t)) e one))
        ]
      ]
