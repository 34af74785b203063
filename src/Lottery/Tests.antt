-- ===== src/Lottery/Tests.antt =====
-- Draws at concrete inputs.
use blocktic_backend.Base.{
  ℕ, ◌+◌, ◌≤◌, ◌/◌, String, ◌≡◌, refl, none, some, List, [], ◌∷◌, arith, tally, ◌&&◌, eq_iff, subst,
  Bool-cases, inl, inr, ◌==◌, string_eq, decimal, hexadecimal, true,
}
use Prim.Native.Nat.{max}
use blocktic_backend.Entities.{LotteryEntry, won, pending, is_won}
use blocktic_backend.Lottery.Winners.{drawn, select_all, group_into_pools, event_id_num}
use blocktic_backend.Lottery.Pools.{in_pool}
use blocktic_backend.Lottery.Fairness.{IdsDiffer, has_id, drawn_winners}
use blocktic_backend.Exec.{ok, for_each, ◌>>=◌}
use blocktic_backend.State.{State, transaction, call}
use blocktic_backend.Blockchain.{
  request_vrf_randomness, poll_vrf, record_draw_result, send_contract_tx,
}
use blocktic_backend.Lottery.{
  DrawResultEntry, DrawResultResponse, draw, persist_draw, record_proof, get_results,
  resolve_wallet_addresses, seed_hex,
}
use blocktic_backend.Samples.{world, config, state_of, empty_db}

abbrev pub entry : String → ℕ → LotteryEntry
entry id size = record {
  id = id;
  event_id = "e1";
  user_id = id;
  zone_id = "z1";
  group_size = size;
  status = pending;
  draw_proof_tx_hash = none;
}

abbrev entries : List LotteryEntry
entries = entry "a" 2 ∷ entry "b" 1 ∷ entry "c" 2 ∷ entry "d" 2 ∷ []

entries-IdsDiffer : IdsDiffer entries
entries-IdsDiffer i = elim (Bool-cases ("a" == i)) [
  | inl is_a ↦ at "a" is_a (omega arith)
  | inr not_a ↦ elim (Bool-cases ("b" == i)) [
    | inl is_b ↦ at "b" is_b (omega arith)
    | inr not_b ↦ elim (Bool-cases ("c" == i)) [
      | inl is_c ↦ at "c" is_c (omega arith)
      | inr not_c ↦ elim (Bool-cases ("d" == i)) [
        | inl is_d ↦ at "d" is_d (omega arith)
        | inr not_d ↦ rw (not_a, not_b, not_c, not_d) (omega arith)
      ]
    ]
  ]
]
  where
    at :
        (id : String)
        → (id == i) ≡ true
        → tally (has_id id) entries ≤ 1
        → tally (has_id i) entries ≤ 1
    at id same h = subst (λ x. tally (has_id x) entries ≤ 1) ((eq_iff id i).0 same) h

three : tally (in_pool "z1:2") entries ≡ 3
unfolding decimal
three = refl

drawn_winners_example :
    tally (λ (e : LotteryEntry). in_pool "z1:2" e && is_won e.status) (drawn world "seed" entries)
    ≡ max 1 ((3 + 1) / 2)
drawn_winners_example =
    drawn_winners world "seed" entries entries-IdsDiffer "z1:2" 3 three (omega arith)

abbrev pub registered : State
registered = state_of (record empty_db { entries = entry "a" 2 ∷ entry "b" 1 ∷ [] })

unfoldable pub runs : Unit {0}
unfolding draw request_vrf_randomness poll_vrf drawn select_all group_into_pools persist_draw
    record_proof get_results transaction call resolve_wallet_addresses record_draw_result for_each
    send_contract_tx decimal event_id_num hexadecimal ◌>>=◌
runs = tt

abbrev pub winner : String → ℕ → DrawResultEntry
winner id size = record {
  id = id;
  user_id = id;
  zone_id = "z1";
  group_size = size;
  status = won;
  draw_proof_tx_hash = some "0xabc";
}

abbrev pub response : DrawResultResponse
response = record {
  event_id = "e1";
  vrf_request_id = some "5";
  random_seed = some (seed_hex world 77);
  draw_proof_tx_hash = some "0xabc";
  drawn_at = some 1000000;
  entries = winner "a" 2 ∷ winner "b" 1 ∷ [];
}

pub first_draw : (draw world config "e1" registered).0 ≡ ok response
unfolding runs
first_draw = refl
