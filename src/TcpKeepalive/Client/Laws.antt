-- ===== src/TcpKeepalive/Client/Laws.antt =====
-- How the client's loops end, and the gauges of the connection.
use neco_containers.Base.{
  ℕ, suc, ◌+◌, ◌-◌, ◌%◌, ◌^◌, ◌≤◌, leb, nat_eq, le→leb, gt→leb, leb→le, leb→gt, pos, ◌≡◌, refl, ◌⊎◌,
  inl, inr, true, false, Option, none, some, Result, ok, err, List, [], ◌∷◌, length, All, ◌++◌,
  Bool-cases, Result-cases, arith, if◌then◌else◌,
}
use neco_containers.TcpKeepalive.Client.{
  Gauges, set_conn_state_unestablished, set_conn_state_established, set_conn_state_closed, State,
  Attempt, stopped, retry_limit_exceeded, after_dial, dial, send_by_period, close, close_after,
  send_after, run, retry_loop, run_client,
}

is_zero : (n : ℕ) → (leb 1 n ≡ true → nat_eq n 0 ≡ false) × (leb 1 n ≡ false → nat_eq n 0 ≡ true)
is_zero n = ((λ h. ground arith), (λ h. ground arith))

-- Exactly one of the three gauges is 1, and the others are 0.
abbrev pub IsOneHot : Gauges → Type 0
IsOneHot g =
    (g ≡ set_conn_state_unestablished)
    ⊎ ((g ≡ set_conn_state_established) ⊎ (g ≡ set_conn_state_closed))

-- What a run leaves of the state.
unfoldable pub Keeps : State → State → Type 0
Keeps s t = (t.retry_total ≡ s.retry_total) × (IsOneHot s.gauges → IsOneHot t.gauges)

module _ {E : Type 0} where
  -- A turn that is not cancelled and fails: at the address, at the connection, or at an exchange.
  abbrev pub IsFailing : Attempt E → Type 0
  IsFailing a =
      (a.cancelled ≡ false)
      × (((e : E) × (a.resolved ≡ err e))
          ⊎ (((e : E) × (a.dialed ≡ err e))
              ⊎ ((e : E) × (send_by_period a.exchanges ≡ some (err e)))))

  unfoldable pub RunKeeps : State → Option (Result E (Unit {0}) × State) → Type 0
  unfolding Keeps
  RunKeeps s none = Unit
  RunKeeps s (some (r, t)) = Keeps s t

  close_after-RunKeeps :
      (o : Option (Result E (Unit {0}))) (s t : State) → Keeps s t → RunKeeps s (close_after o t)
  unfolding RunKeeps Keeps close_after close
  close_after-RunKeeps none s t h = tt
  close_after-RunKeeps (some r) s t h = elim (Bool-cases t.has_conn) [
    | inl e ↦ rw (e, close) (h.0, λ g. inr (inr refl))
    | inr e ↦ rw (e, close) h
  ]

  pub run-RunKeeps : (a : Attempt E) (st : State) → RunKeeps st (run a st)
  unfolding run dial send_after after_dial RunKeeps Keeps
  run-RunKeeps a st = elim (Result-cases a.resolved) [
    | inr (e, i) ↦ rw (i, run, dial) (refl, λ g. g)
    | inl (u, i) ↦ elim (Result-cases a.dialed) [
      | inr (e, j) ↦ rw (i, run, dial, j) (refl, λ g. g)
      | inl (v, j) ↦
          rw (i, run, dial, j)
            (close_after-RunKeeps (send_by_period a.exchanges) st
              (record st { has_conn = true; gauges = set_conn_state_established })
              (refl, λ g. inr (inl refl)))
    ]
  ]

  run-fails :
      (a : Attempt E) (st : State)
      → IsFailing a
      → (e : E) × (st' : State) × (run a st ≡ some (err e, st'))
  unfolding run dial send_after after_dial close_after
  run-fails a st h = elim (Result-cases a.resolved) [
    | inr (e, i) ↦ (e, st, rw (i, run, dial) refl)
    | inl (u, i) ↦ elim (Result-cases a.dialed) [
      | inr (e, j) ↦ (e, record st { has_conn = false }, rw (i, run, dial, j) refl)
      | inl (v, j) ↦ elim h.1 [
        | inl (e, k) ↦ cc
        | inr (inl (e, k)) ↦ cc
        | inr (inr (e, k)) ↦ (
          e,
          close (record st { has_conn = true; gauges = set_conn_state_established }),
          rw (i, run, dial, j, k) refl,
        )
      ]
    ]
  ]

  loop_gives_up :
      (n i : ℕ) (attempts : List (Attempt E)) (st : State)
      → All IsFailing attempts
      → i ≤ suc n
      → suc n ≤ i + length attempts
      → (st' : State) × (retry_loop n i attempts st ≡ some (retry_limit_exceeded, st'))
        × (((suc n ≡ i) × (st'.retry_total ≡ st.retry_total))
            ⊎ (st'.retry_total ≡ (st.retry_total + (suc n - i)) % 2 ^ 64))
  unfolding retry_loop Keeps RunKeeps
  loop_gives_up n i [] st h a b =
      (st, rw (retry_loop, gt→leb i n (omega arith)) refl, inl (omega arith, refl))
  loop_gives_up n i (x ∷ xs) st h a b = elim (Bool-cases (leb i n)) [
    | inr l ↦ (st, rw (retry_loop, l) refl, inl (omega (arith, leb→gt i n l), refl))
    | inl l ↦
        let counted = record st { retry_count = i } in
        let (e, st1, r) = run-fails x counted h.0 in
        let k = rw r at (run-RunKeeps x counted) in
        let (st', p, q) =
          loop_gives_up n (suc i) xs (record st1 { retry_total = (st1.retry_total + 1) % 2 ^ 64 })
            h.1 (omega (arith, leb→le i n l)) (omega (arith, b)) in
        (
          st',
          rw (retry_loop, l, r, h.0.0) p,
          inr (elim q [
            | inl (x, y) ↦ omega (arith, x, y, k.0)
            | inr y ↦ omega (arith, y, k.0, leb→le i n l)
          ]),
        )
  ]

  -- With a limit of `n` retries, a client whose context is not done and whose turns all fail gives
  -- up: `n + 1` turns are enough, the error is that of the limit, and the counter of the retries
  -- has grown by `n + 1`, modulo 2^64.
  pub run_client_gives_up :
      (n : ℕ) (attempts : List (Attempt E)) (st : State)
      → All IsFailing attempts
      → suc n ≤ length attempts
      → (st' : State) × (run_client (pos n) attempts st ≡ some (retry_limit_exceeded, st'))
        × (st'.retry_total ≡ (st.retry_total + suc n) % 2 ^ 64)
  unfolding run_client
  run_client_gives_up n attempts st h b =
      let (st', p, q) =
        loop_gives_up n 0 attempts (record st { gauges = set_conn_state_unestablished }) h
          (omega arith) (omega (arith, b)) in
      (st', p, elim q [ inl (x, y) ↦ absurd (omega (arith, x)) | inr y ↦ omega (arith, y) ])

  -- A turn whose connection works until the context is done.
  abbrev pub IsStopping : Attempt E → Type 0
  IsStopping a =
      (a.cancelled ≡ false)
      × (a.resolved ≡ ok tt)
      × (a.dialed ≡ ok tt)
      × (send_by_period a.exchanges ≡ some (ok tt))

  run-stops :
      (a : Attempt E) (st : State) → IsStopping a → (st' : State) × (run a st ≡ some (ok tt, st'))
  unfolding run dial send_after after_dial close_after
  run-stops a st h = (
    close (record st { has_conn = true; gauges = set_conn_state_established }),
    rw (run, dial, h.1, h.2, h.3) refl,
  )

  loop_stops :
      (n i : ℕ) (failed : List (Attempt E)) (a b : Attempt E) (rest : List (Attempt E)) (st : State)
      → All IsFailing failed
      → i + length failed ≤ n
      → IsStopping a
      → b.cancelled ≡ true
      → (st' : State) × (retry_loop n i (failed ++ a ∷ b ∷ rest) st
          ≡ some ((if nat_eq n 0 then retry_limit_exceeded else stopped), st'))
  unfolding retry_loop
  loop_stops n i [] a b rest st h l s c =
      let (st1, r) = run-stops a (record st { retry_count = i }) s in
      elim (Bool-cases (leb 1 n)) [
        | inl m ↦ (
          record st1 { retry_count = 1 },
          rw (retry_loop, le→leb i n (omega (arith, l)), r, s.0, m, c, (is_zero n).0 m) refl,
        )
        | inr m ↦
            (st1, rw (retry_loop, le→leb i n (omega (arith, l)), r, s.0, m, (is_zero n).1 m) refl)
      ]
  loop_stops n i (x ∷ xs) a b rest st h l s c =
      let counted = record st { retry_count = i } in
      let (e, st1, r) = run-fails x counted h.0 in
      let (st', p) =
        loop_stops n (suc i) xs a b rest
          (record st1 { retry_total = (st1.retry_total + 1) % 2 ^ 64 }) h.1 (omega (arith, l)) s
          c in
      (st', rw (retry_loop, le→leb i n (omega (arith, l)), r, h.0.0) p)

  -- A client with a limit of `n` retries whose context is done while a connection works, after at
  -- most `n` turns that failed, stops without an error if `n` is positive; if `n` is zero it
  -- returns the error of the limit.
  pub run_client_stops :
      (n : ℕ) (failed : List (Attempt E)) (a b : Attempt E) (rest : List (Attempt E)) (st : State)
      → All IsFailing failed
      → length failed ≤ n
      → IsStopping a
      → b.cancelled ≡ true
      → (st' : State) × (run_client (pos n) (failed ++ a ∷ b ∷ rest) st
          ≡ some ((if nat_eq n 0 then retry_limit_exceeded else stopped), st'))
  unfolding run_client
  run_client_stops n failed a b rest st h l s c =
      loop_stops n 0 failed a b rest (record st { gauges = set_conn_state_unestablished }) h
        (omega (arith, l)) s c
