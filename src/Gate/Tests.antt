-- ===== src/Gate/Tests.antt =====
-- The gate's properties at concrete inputs.
use blocktic_backend.Base.{◌≡◌, ◌≢◌, refl, arith}
use blocktic_backend.Exec.{err, failure, ok, ◌>>=◌}
use blocktic_backend.State.{QrPayload}
use blocktic_backend.Gate.Fallback.{fallback_verify_unlogged}
use blocktic_backend.Gate.{fallback_verify}
use blocktic_backend.Gate.Entry.{check_token}
use blocktic_backend.Gate.Replay.{here, scan, check_token_once}
use blocktic_backend.Samples.{config, known_person, world, two_tickets}

abbrev payload : QrPayload
payload = record { sub = "t1"; nonce = "n1"; iat = 1000 }

check_token_accepts : (check_token world "qr" two_tickets).0 ≡ ok "t1"
unfolding check_token ◌>>=◌
check_token_accepts = refl

-- The code is shown once more, after a scan of something that is no token.
check_token_once_example :
    (check_token world "qr" (check_token world "junk" (check_token world "qr" two_tickets).1).1).0
    ≢ ok "t1"
unfolding check_token ◌>>=◌
check_token_once_example =
    check_token_once world "qr" "qr" "t1" "t1" payload two_tickets _ refl (omega arith)
      check_token_accepts (scan "junk" here) refl

-- The holder of both tickets asks for an event of which there is no ticket.
fallback_verify_unlogged_example :
    fallback_verify world config "A123" "e2" "g1" "s1" two_tickets
    ≡ (err (failure "invalid input syntax for type uuid"), two_tickets)
fallback_verify_unlogged_example =
    fallback_verify_unlogged world config "A123" "e2" "g1" "s1" known_person two_tickets refl refl
      refl
