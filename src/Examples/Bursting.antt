-- ===== src/Examples/Bursting.antt =====
-- Two goroutines ask for a token at once: the second one waits at the lock, and finds the token.
use dev_intel_platform.Base.{true, ◌≡◌, refl, List, [], ◌∷◌, some, arith}
use dev_intel_platform.Base.Int.{pos, ◌-ℤ◌}
use dev_intel_platform.GithubApp.Outside.{InstallationToken}
use dev_intel_platform.GithubApp.Tokens.{valid}
use dev_intel_platform.GithubApp.Tokens.Burst.{Action, tick, move, reply, at_start, run}
use dev_intel_platform.GithubApp.Tokens.Burst.Returns.{MayReturn, run-MayReturn}
use dev_intel_platform.GithubApp.Tokens.Burst.Coalesced.{IsCoalesced, run-IsCoalesced}

abbrev fresh_token : InstallationToken
fresh_token = record { token = "ghs_1"; expires_at = pos 3600000000000; permissions = [] }

abbrev schedule : List Action
schedule =
    move 1
    ∷ move 2
    ∷ move 1
    ∷ move 2
    ∷ move 1
    ∷ tick (pos 2)
    ∷ reply 1 (some fresh_token)
    ∷ move 1
    ∷ move 2
    ∷ move 2
    ∷ move 3
    ∷ []

fresh_token-valid : valid fresh_token (pos 1000000000) ≡ true
unfolding valid ◌-ℤ◌
fresh_token-valid = refl

run-IsCoalesced_example : IsCoalesced (run schedule (at_start (pos 1)))
run-IsCoalesced_example =
    run-IsCoalesced (pos 1000000000) (pos 1) schedule (ground arith)
      (tt, (tt, (tt, (tt, (tt, (ground arith, (fresh_token-valid, (tt, (tt, (tt, (tt, tt)))))))))))

run-MayReturn_example : MayReturn (run schedule (at_start (pos 1)))
run-MayReturn_example = run-MayReturn (pos 1) schedule
