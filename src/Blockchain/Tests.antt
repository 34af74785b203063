-- ===== src/Blockchain/Tests.antt =====
-- A transaction and a poll at concrete inputs.
use blocktic_backend.Base.{◌≤◌, arith, ◌≡◌, refl, [], ◌∷◌}
use blocktic_backend.Exec.{ok, ◌>>=◌}
use blocktic_backend.State.{sbt_mint, mined, Call, Trace}
use blocktic_backend.Blockchain.{send_contract_tx, fulfilled, poll_vrf, poll_fuel}
use blocktic_backend.Blockchain.Polling.{Ticks, Explains, poll_vrf_outcome}
use blocktic_backend.Blockchain.Transactions.{send_contract_tx-ok}
use blocktic_backend.Samples.{world, slept, config, two_tickets}

minted :
    (send_contract_tx world config "SBT mint" (sbt_mint "0xwallet" 1007) two_tickets).0 ≡ ok "0xabc"
unfolding send_contract_tx ◌>>=◌
minted = refl

send_contract_tx-ok_example :
    (world.transact [] (sbt_mint "0xwallet" 1007) ≡ mined "0xabc")
    × ((send_contract_tx world config "SBT mint" (sbt_mint "0xwallet" 1007) two_tickets).1.trace
        ≡ sbt_mint "0xwallet" 1007 ∷ [])
send_contract_tx-ok_example =
    send_contract_tx-ok world config "SBT mint" (sbt_mint "0xwallet" 1007) two_tickets "0xabc"
      minted

runs : Unit {0}
unfolding poll_vrf ◌>>=◌
runs = tt

onward : (c : Call) (t : Trace) → slept t ≤ slept (c ∷ t)
onward c t = ground arith

ticks : Ticks world
ticks = record { onward = onward; sleeps = λ ms t. omega arith }

-- Within 12 s, in rounds of 5 s; the first answer is the word.
answered :
    (poll_vrf world config (poll_fuel world config 12000 5000) 5 1012000 5000 two_tickets).0
    ≡ ok (fulfilled 77)
unfolding runs
answered = refl

poll_vrf_outcome_example :
    Explains world config 5 1012000
      (fulfilled 77)
      (poll_vrf world config (poll_fuel world config 12000 5000) 5 1012000 5000 two_tickets).1
poll_vrf_outcome_example =
    poll_vrf_outcome world config ticks 5 12000 5000 (omega arith) two_tickets (fulfilled 77)
      answered
