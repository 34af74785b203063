-- ===== src/Lottery.antt =====
-- lottery/lottery.service.ts: registration, the draw, and its results. The choice of the winners is
-- in Lottery/Winners.antt.
pub mod Winners
pub mod Pools
pub mod Fairness
pub mod Kept
pub mod Once
pub mod Unique
pub mod Settled
pub mod Tests
use blocktic_backend.Base.{
  ℕ, ◌+◌, ◌*◌, ◌-◌, String, Bool, true, false, not, ◌&&◌, Option, none, some, List, [], ◌∷◌, ◌++◌,
  ◌<>◌, ◌==◌, nat_eq, string_eq, if◌then◌else◌, find_by, keep, update_where, length, map, is_some,
  get_or, repeat, pad_start, decimal, hexadecimal,
}
use blocktic_backend.Exec.{
  Fault, not_found, conflict, pure, throw, gets, modify, throw_if, or_throw, try_catch, for_each,
  ◌>>=◌, ◌>>◌,
}
use blocktic_backend.Entities.{LotteryEntry, LotteryEntryStatus, pending, is_won, DrawResult}
use blocktic_backend.State.{World, Config, State, App, put_entries, put_draw_results, transaction}
use blocktic_backend.Blockchain.{VrfRandomness, request_vrf_randomness, record_draw_result}
use blocktic_backend.Kyc.{get_kyc_status}
use Winners.{drawn, event_id_num}

-- dto/register-lottery.dto.ts
pub record RegisterLottery : Type 0 where
  pub zone_id : String
  pub group_size : ℕ

-- dto/draw-result.dto.ts
pub record DrawResultEntry : Type 0 where
  pub id : String
  pub user_id : String
  pub zone_id : String
  pub group_size : ℕ
  pub status : LotteryEntryStatus
  pub draw_proof_tx_hash : Option String

pub record DrawResultResponse : Type 0 where
  pub event_id : String
  pub vrf_request_id : Option String
  pub random_seed : Option String
  pub draw_proof_tx_hash : Option String
  pub drawn_at : Option ℕ
  pub entries : List DrawResultEntry

pub record DrawProofResponse : Type 0 where
  pub event_id : String
  pub vrf_request_id : Option String
  pub random_seed : Option String
  pub draw_proof_tx_hash : Option String
  pub drawn_at : ℕ

abbrev pub of_event : String → LotteryEntry → Bool
of_event event_id e = e.event_id == event_id

abbrev pub is_registered : (event_id user_id : String) → LotteryEntry → Bool
is_registered event_id user_id e = e.event_id == event_id && e.user_id == user_id

abbrev pub already_registered : Fault
already_registered = conflict "User already registered for this event lottery"

abbrev pub draw_of : String → State → Option DrawResult
draw_of event_id s = find_by (λ (d : DrawResult). d.event_id == event_id) s.draw_results

abbrev pub entries_of : String → State → List LotteryEntry
entries_of event_id s = keep (of_event event_id) s.entries

abbrev pub already_drawn : Fault
already_drawn = conflict "Draw has already been executed for this event"

abbrev pub entry_dto : LotteryEntry → DrawResultEntry
entry_dto e = record {
  id = e.id;
  user_id = e.user_id;
  zone_id = e.zone_id;
  group_size = e.group_size;
  status = e.status;
  draw_proof_tx_hash = e.draw_proof_tx_hash;
}

abbrev pub results_of : String → Option DrawResult → List LotteryEntry → DrawResultResponse
results_of event_id none entries = record {
  event_id = event_id;
  vrf_request_id = none;
  random_seed = none;
  draw_proof_tx_hash = none;
  drawn_at = none;
  entries = map entry_dto entries;
}
results_of event_id (some d) entries = record {
  event_id = event_id;
  vrf_request_id = d.vrf_request_id;
  random_seed = d.random_seed;
  draw_proof_tx_hash = d.draw_proof_tx_hash;
  drawn_at = some d.drawn_at;
  entries = map entry_dto entries;
}

-- `buildDrawResultResponse`, which is also `getResults`
unfoldable pub get_results : (event_id : String) → App DrawResultResponse
get_results event_id = gets (λ s. results_of event_id (draw_of event_id s) (entries_of event_id s))

unfoldable pub get_proof : (event_id : String) → App DrawProofResponse
get_proof event_id = do
  found ← gets (draw_of event_id)
  d ← or_throw found (not_found "No draw result found for this event")
  pure (record {
    event_id = event_id;
    vrf_request_id = d.vrf_request_id;
    random_seed = d.random_seed;
    draw_proof_tx_hash = d.draw_proof_tx_hash;
    drawn_at = d.drawn_at;
  })

abbrev pub zero_address : String
zero_address = "0x" <> repeat 40 "0"

-- `resolveWalletAddresses`: one address for each winner, the zero address for one without a wallet.
abbrev pub wallet_of : (user_id : String) → App String
wallet_of user_id =
    try_catch (get_kyc_status user_id >>= λ kyc. pure (get_or kyc.aa_wallet_address zero_address))
      (λ _. pure zero_address)

unfoldable pub resolve_wallet_addresses : List LotteryEntry → App (List String)
unfolding get_kyc_status ◌>>=◌
resolve_wallet_addresses [] = pure []
resolve_wallet_addresses (e ∷ rest) = do
  address ← wallet_of e.user_id
  addresses ← resolve_wallet_addresses rest
  pure (address ∷ addresses)

-- `manager.update(LotteryEntry, e.id, { status })`
abbrev pub set_status : LotteryEntry → State → State
set_status e s =
    put_entries
      (update_where (λ (x : LotteryEntry). x.id == e.id) (λ x. record x { status = e.status })
        s.entries)
      s

-- `entryRepo.update(e.id, { drawProofTxHash })`
abbrev pub set_proof : String → LotteryEntry → State → State
set_proof tx e s =
    put_entries
      (update_where (λ (x : LotteryEntry). x.id == e.id)
        (λ x. record x { draw_proof_tx_hash = some tx }) s.entries)
      s

abbrev pub set_draw_proof : String → String → State → State
set_draw_proof tx id s =
    put_draw_results
      (update_where (λ (d : DrawResult). d.id == id)
        (λ d. record d { draw_proof_tx_hash = some tx }) s.draw_results)
      s

-- The unique indexes on (eventId, userId) and on the draw's eventId are not part of the model: a save
-- appends its row, whatever rows there are. So the branches for the database's error 23505, which
-- answer with the same exception as the check before the save, are not modelled.
module _ (w : World) where
  abbrev pub new_entry : (event_id user_id : String) → RegisterLottery → State → LotteryEntry
  new_entry event_id user_id dto s = record {
    id = w.new_id (map LotteryEntry.id s.entries);
    event_id = event_id;
    user_id = user_id;
    zone_id = dto.zone_id;
    group_size = dto.group_size;
    status = pending;
    draw_proof_tx_hash = none;
  }

  unfoldable pub register : (event_id user_id : String) → RegisterLottery → App LotteryEntry
  register event_id user_id dto = do
    existing ← gets (λ s. find_by (is_registered event_id user_id) s.entries)
    throw_if (is_some existing) already_registered
    entry ← gets (new_entry event_id user_id dto)
    modify (λ s. put_entries (s.entries ++ entry ∷ []) s)
    pure entry

  abbrev pub seed_hex : ℕ → String
  seed_hex word = "0x" <> pad_start 64 "0" (hexadecimal word)

  abbrev pub new_draw : (event_id : String) → VrfRandomness → State → DrawResult
  new_draw event_id vrf s = record {
    id = w.new_id (map DrawResult.id s.draw_results);
    event_id = event_id;
    vrf_request_id = some (decimal vrf.vrf_request_id);
    random_seed = some (seed_hex vrf.random_word);
    draw_proof_tx_hash = none;
    drawn_at = w.now s.trace;
  }

  -- Step 4: the draw and the statuses of its entries, in one transaction.
  unfoldable pub persist_draw :
      (event_id : String) → VrfRandomness → List LotteryEntry → App DrawResult
  unfolding transaction for_each
  persist_draw event_id vrf entries = transaction (do
    existing ← gets (draw_of event_id)
    throw_if (is_some existing) already_drawn
    result ← gets (new_draw event_id vrf)
    modify (λ s. put_draw_results (s.draw_results ++ result ∷ []) s)
    for_each entries (λ e. modify (set_status e))
    pure result)

  module _ (cfg : Config) where
    -- Step 5: the proof on the chain, whose failure changes nothing of the draw.
    unfoldable pub record_proof :
        (event_id : String) → VrfRandomness → DrawResult → List LotteryEntry → App (Unit {0})
    unfolding resolve_wallet_addresses record_draw_result for_each
    record_proof event_id vrf result entries =
        try_catch
          (do
            wallets ← resolve_wallet_addresses (keep (λ e. is_won e.status) entries)
            tx ←
                record_draw_result w cfg (event_id_num event_id) 0 vrf.vrf_request_id
                  vrf.random_word wallets
            modify (set_draw_proof tx result.id)
            for_each entries (λ e. modify (set_proof tx e)))
          (λ _. pure tt)

    unfoldable pub draw : (event_id : String) → App DrawResultResponse
    unfolding request_vrf_randomness drawn persist_draw record_proof get_results
    draw event_id = do
      entries ← gets (entries_of event_id)
      throw_if (length entries == 0) (not_found "No lottery entries found for this event")
      existing ← gets (draw_of event_id)
      throw_if (is_some existing) already_drawn
      vrf ← request_vrf_randomness w cfg 120000 5000
      let decided = drawn w (seed_hex vrf.random_word) entries
      result ← persist_draw event_id vrf decided
      record_proof event_id vrf result decided
      get_results event_id
