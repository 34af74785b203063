-- ===== src/Auth/Tests.antt =====
-- One-time passwords at concrete inputs.
use blocktic_backend.Base.{
  ◌≤◌, ◌<◌, String, ◌≡◌, ◌≢◌, refl, none, some, List, [], ◌∷◌, arith, lookup, is_none, find_by,
  save, true, false, ◌==◌, string_eq, if◌then◌else◌,
}
use blocktic_backend.Exec.{ok, ◌>>=◌}
use blocktic_backend.Entities.{User}
use blocktic_backend.State.{State, OtpRecord, sleep}
use blocktic_backend.Auth.{
  mock_otp, max_otp_attempts, VerifyOtpResponse, check_otp, find_or_create, verify_otp, send_otp,
}
use blocktic_backend.Auth.Otp.{guess_all, verify_otp-ok, otp_lockout, send_otp_accepted}
use blocktic_backend.Auth.Refinement.{Action, answers, replay, moves, view, answers_refine}
use blocktic_backend.Samples.{world, two_tickets}

runs : Unit {0}
unfolding verify_otp check_otp find_or_create send_otp guess_all ◌>>=◌
runs = tt

abbrev welcome : VerifyOtpResponse
welcome = record { token = "jwt x"; is_new_user = true; user_id = "x" }

abbrev guesses : List String
guesses = "1" ∷ "2" ∷ "3" ∷ "4" ∷ "5" ∷ []

abbrev four : List String
four = "1" ∷ "2" ∷ "3" ∷ "4" ∷ []

abbrev sent : State
sent = (send_otp world "0912" two_tickets).1

verified : (verify_otp world "0912" "123456" sent).0 ≡ ok welcome
unfolding runs
verified = refl

verify_otp-ok_example :
    (r : OtpRecord) × (u : User) × (lookup "0912" sent.otp_store ≡ some r)
    × (world.now sent.trace ≤ r.expires_at)
    × (r.attempts < max_otp_attempts)
    × (◌≡◌ {A = String} "123456" mock_otp)
    × (lookup "0912" (verify_otp world "0912" "123456" sent).1.otp_store ≡ none)
    × (welcome ≡ record {
      token = world.sign_user u.id u.role;
      is_new_user = is_none (find_by (λ (x : User). x.phone == "0912") sent.users);
      user_id = u.id;
    })
    × (u.phone ≡ "0912")
    × ((verify_otp world "0912" "123456" sent).1.users
        ≡ (if welcome.is_new_user then save User.id u sent.users else sent.users))
    × (find_by (λ (x : User). x.phone == "0912") (verify_otp world "0912" "123456" sent).1.users
        ≡ some u)
verify_otp-ok_example = verify_otp-ok world "0912" "123456" sent welcome verified

otp_lockout_example :
    (verify_otp world "0912" "123456" (guess_all world "0912" guesses sent)).0 ≢ ok welcome
otp_lockout_example =
    otp_lockout world "0912" "123456" guesses sent welcome
      ((λ e. cc), ((λ e. cc), ((λ e. cc), ((λ e. cc), ((λ e. cc), tt))))) (omega arith)

send_otp_accepted_example :
    (reply : VerifyOtpResponse) × ((verify_otp world "0912" mock_otp
        (guess_all world "0912" four (send_otp world "0912" two_tickets).1)).0
      ≡ ok reply)
send_otp_accepted_example =
    send_otp_accepted world "0912" four two_tickets
      ((λ e. cc), ((λ e. cc), ((λ e. cc), ((λ e. cc), tt)))) (omega arith)

abbrev mixed : List Action
mixed =
    Action.send_to "0912"
    ∷ Action.verify "0912" "000000"
    ∷ Action.verify "0988" "123456"
    ∷ Action.other_call (sleep 1000)
    ∷ Action.verify "0912" "123456"
    ∷ Action.verify "0912" "123456"
    ∷ []

answers_refine_example :
    answers world "0912" mixed two_tickets
    ≡ replay (moves world "0912" mixed two_tickets.trace) (view "0912" two_tickets)
answers_refine_example = answers_refine world "0912" mixed two_tickets

mixed_run : answers world "0912" mixed two_tickets ≡ false ∷ false ∷ true ∷ false ∷ []
mixed_run = answers_refine world "0912" mixed two_tickets
