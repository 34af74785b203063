-- ===== src/Frames/Entry.antt =====
-- gate-verification/gate-verification.service.ts: the tables that its operations do not write.
use blocktic_backend.Base.{ℕ, String, List, Option, none, some, Option-cases, inl, inr, non_empty}
use blocktic_backend.Exec.Keeps.{Moves}
use blocktic_backend.Entities.{Ticket, VerificationMode, VerificationResult}
use blocktic_backend.State.{
  World, Config, Db, put_tickets, put_gate_logs, HttpReply, rejected, response, SubjectMatch,
}
use blocktic_backend.State.Frame.{Same, Ignores, frame_rules}
use blocktic_backend.Gate
use blocktic_backend.Gate.Entry
use blocktic_backend.Gate.Face
use blocktic_backend.Frames.Chain.{verify_sbt_ownership-Same}

module _ {X : Type 0} (v : Db → X) (w : World) where
  check_token-Same : (token : String) → Moves (Same v) (Entry.check_token w token)
  unfolding Entry.check_token
  check_token-Same token = search frame_rules depth 40

  module _ (logs : Ignores v put_gate_logs) where
    save_log-Same :
        (event ticket gate : String) (m : VerificationMode) (r : VerificationResult)
        (score : Option ℕ) (staff : String)
        → Moves (Same v) (Entry.save_log w event ticket gate m r score staff)
    unfolding Entry.save_log
    save_log-Same event ticket gate m r score staff = search (frame_rules, logs) depth 16

    module _ (tickets : Ignores v put_tickets) (gate staff : String) where
      consume-Same :
          (event ticket : String) (m : VerificationMode) (r : VerificationResult) (score : Option ℕ)
          (message : String)
          → Moves (Same v) (Entry.consume w gate staff event ticket m r score message)
      unfolding Entry.consume
      consume-Same event ticket m r score message =
          search (frame_rules, save_log-Same, tickets) depth 40

      checked_row-Same :
          (id : String) (found : Option Ticket)
          → Moves (Same v) (Entry.checked_row w gate staff id found)
      checked_row-Same id none = search (frame_rules, save_log-Same) depth 16
      checked_row-Same id (some t) = search (frame_rules, save_log-Same) depth 24

      load_ticket-Same : (id : String) → Moves (Same v) (Entry.load_ticket w gate staff id)
      unfolding Entry.load_ticket
      load_ticket-Same id = search (frame_rules, checked_row-Same) depth 16

      recognized-Same :
          (subject : String) (r : HttpReply (List SubjectMatch))
          → Moves (Same v) (Face.recognized subject r)
      recognized-Same subject rejected = search frame_rules
      recognized-Same subject (response status subjects) = search frame_rules depth 16

      scored-Same :
          (photo : String) (subject : Option String) → Moves (Same v) (Face.scored w photo subject)
      scored-Same photo none = search frame_rules
      scored-Same photo (some subject) = search (frame_rules, recognized-Same) depth 16

      compare_face-Same : (user photo : String) → Moves (Same v) (Face.compare_face w user photo)
      unfolding Face.compare_face
      compare_face-Same user photo = search (frame_rules, scored-Same) depth 16

      module _ (cfg : Config) where
        on_chain-Same :
            (token : Option ℕ) (wallet : Option String)
            → Moves (Same v) (Entry.check_on_chain_ownership w gate staff cfg token wallet)
        unfolding Entry.check_on_chain_ownership
        on_chain-Same none wallet = search frame_rules
        on_chain-Same (some token) wallet = elim (Option-cases (non_empty wallet)) [
          | inl missing ↦ rw (Entry.check_on_chain_ownership, missing) (search frame_rules)
          | inr (address, given) ↦
              rw (Entry.check_on_chain_ownership, given)
                (search (frame_rules, verify_sbt_ownership-Same) depth 16)
        ]

        check_ownership-Same :
            (t : Ticket) → Moves (Same v) (Entry.check_ownership w gate staff cfg t)
        unfolding Entry.check_ownership
        check_ownership-Same t = search (frame_rules, on_chain-Same, save_log-Same) depth 24

        check_face-Same :
            (t : Ticket) (photo : Option String)
            → Moves (Same v) (Entry.check_face w gate staff cfg t photo)
        unfolding Entry.check_face
        check_face-Same t photo = elim (Option-cases (non_empty photo)) [
          | inl missing ↦ rw (Entry.check_face, missing) (search frame_rules)
          | inr (image, given) ↦
              rw (Entry.check_face, given)
                (search (frame_rules, compare_face-Same, save_log-Same) depth 24)
        ]

        pub verify_entry-Same :
            (token : String) (photo : Option String)
            → Moves (Same v) (Gate.verify_entry w cfg token gate staff photo)
        unfolding Gate.verify_entry
        verify_entry-Same token photo =
            search
              (
                frame_rules, check_token-Same, load_ticket-Same, check_ownership-Same,
                check_face-Same, consume-Same,
              )
              depth 32

        admit_fallback-Same :
            (event : String) (found : Option Ticket)
            → Moves (Same v) (Gate.admit_fallback w cfg event gate staff found)
        unfolding Gate.admit_fallback
        admit_fallback-Same event none = search (frame_rules, save_log-Same) depth 16
        admit_fallback-Same event (some t) = search (frame_rules, consume-Same)

        pub fallback_verify-Same :
            (government_id event : String)
            → Moves (Same v) (Gate.fallback_verify w cfg government_id event gate staff)
        unfolding Gate.fallback_verify
        fallback_verify-Same government_id event =
            search (frame_rules, admit_fallback-Same) depth 24
