-- ===== src/Blockchain/Polling.antt =====
-- blockchain/blockchain.service.ts, the polling loop of requestVrfRandomness and its outcomes.
use native.Mathlib.Nat.{mul-suc, div-add-mod, mod-lt, mul-zero, mul-add}
use blocktic_backend.Base.{
  ℕ, zero, suc, ◌+◌, ◌*◌, ◌/◌, ◌≤◌, ◌<◌, ◌≡◌, ◌≢◌, subst, ltb→lt, true, false, some, ◌∷◌, arith,
  ltb, Bool-cases, Option-cases, inl, inr,
}
use blocktic_backend.Exec.{Fault, ok, err, ◌>>=◌}
use blocktic_backend.State.{World, Config, Trace, Call, State, sleep, vrf_get_request_result, call}
use blocktic_backend.Blockchain.{Polled, fulfilled, timed_out, out_of_fuel, poll_vrf, poll_fuel}

-- The clock does not go back, and a sleep lasts at least as long as asked.
pub record Ticks (w : World) : Type 0 where
  pub onward : (c : Call) (t : Trace) → w.now t ≤ w.now (c ∷ t)
  pub sleeps : (ms : ℕ) (t : Trace) → w.now t + ms ≤ w.now (sleep ms ∷ t)

module _ (w : World) (cfg : Config) where
  -- What the loop's outcome says of the state in which it ends.
  abbrev pub Explains : (request deadline : ℕ) → Polled → State → Type 0
  Explains request deadline (fulfilled word) s =
      (t : Trace) × (w.request_result t request ≡ some (true, word))
  Explains request deadline timed_out s = deadline ≤ w.now s.trace
  Explains request deadline out_of_fuel s = ⊥

  -- The state after a round that got no answer.
  abbrev slept_on : (request interval : ℕ) → State → State
  slept_on request interval s = record s {
    trace = sleep interval ∷ vrf_get_request_result request ∷ s.trace;
  }

  module _ (ticks : Ticks w) (request deadline interval : ℕ) (pos : 1 ≤ interval) where
    next_round :
        (fuel : ℕ) (s : State)
        → w.now s.trace < deadline
        → deadline + interval ≤ w.now s.trace + interval * suc fuel
        → (1 ≤ fuel)
          × (deadline + interval ≤ w.now (slept_on request interval s).trace + interval * fuel)
    next_round fuel s early enough =
        let onward = ticks.onward (vrf_get_request_result request) s.trace in
        let later = ticks.sleeps interval (vrf_get_request_result request ∷ s.trace) in
        let product = mul-suc interval fuel in (positive fuel (omega arith), omega arith)
      where
        positive : (fuel : ℕ) → 1 ≤ interval * fuel → 1 ≤ fuel
        positive zero h = omega (arith, mul-zero interval)
        positive (suc n) h = omega arith

    poll_vrf-Explains :
        (fuel : ℕ) (s : State) (o : Polled)
        → 1 ≤ fuel
        → deadline + interval ≤ w.now s.trace + interval * fuel
        → (poll_vrf w cfg fuel request deadline interval s).0 ≡ ok o
        → Explains request deadline o (poll_vrf w cfg fuel request deadline interval s).1
    unfolding poll_vrf call ◌>>=◌
    poll_vrf-Explains zero s o some_fuel enough e = absurd (omega arith)
    poll_vrf-Explains (suc fuel) s o some_fuel enough e =
        elim (Bool-cases (ltb (w.now s.trace) deadline)) [
          | inr late ↦
              let ended : timed_out ≡ o = ok_inj (rw late at e) in
              subst
                (λ o.
                  Explains request deadline o
                    (poll_vrf w cfg (suc fuel) request deadline interval s).1)
                ended (rw late (not_before (w.now s.trace) late))
          | inl early ↦ elim (Option-cases (w.request_result s.trace request)) [
            | inl unread ↦ absurd (err≢ok (rw (early, unread) at e))
            | inr ((done, word), read) ↦ elim (Bool-cases done) [
              | inl yes_done ↦
                  let ended : fulfilled word ≡ o = ok_inj (rw (early, read, yes_done) at e) in
                  subst
                    (λ o.
                      Explains request deadline o
                        (poll_vrf w cfg (suc fuel) request deadline interval s).1)
                    ended (s.trace, rw (← yes_done) read)
              | inr not_yet ↦
                  let (left, still) =
                    next_round fuel s (ltb→lt (w.now s.trace) deadline early) enough in
                  rw (early, read, not_yet)
                    (poll_vrf-Explains fuel (slept_on request interval s) o left still
                      (rw (early, read, not_yet) at e))
            ]
          ]
        ]
      where
        ok_inj : {A : Type 0} {a b : A} → ok a ≡ ok b → a ≡ b
        ok_inj h = cc

        err≢ok : {A : Type 0} {f : Fault} {a : A} → err f ≢ ok a
        err≢ok h = cc

        not_before : (now : ℕ) → ltb now deadline ≡ false → deadline ≤ now
        not_before now h = ground arith

  -- On a clock that advances by each sleep at least, and with an interval of at least 1 ms: the fuel
  -- given always suffices, so the poll ends by a word that the coordinator has reported as fulfilled
  -- for this request, or at the deadline or later, or by an error of the node.
  pub poll_vrf_outcome :
      (ticks : Ticks w) (request max_wait interval : ℕ) (pos : 1 ≤ interval) (s : State)
      (o : Polled)
      → (poll_vrf w cfg
          (poll_fuel w cfg max_wait interval)
          request
          (w.now s.trace + max_wait)
          interval
          s).0
        ≡ ok o
      → Explains request
          (w.now s.trace + max_wait)
          o
          (poll_vrf w cfg
            (poll_fuel w cfg max_wait interval)
            request
            (w.now s.trace + max_wait)
            interval
            s).1
  poll_vrf_outcome ticks request max_wait interval pos s o =
      let quotient = max_wait / interval in
      let split = div-add-mod max_wait interval in
      let short = mod-lt max_wait {m = interval} pos in
      let product = mul-add interval quotient 2 in
      poll_vrf-Explains ticks request (w.now s.trace + max_wait) interval pos
        (poll_fuel w cfg max_wait interval) s o (omega arith) (omega (arith, split, short, product))
