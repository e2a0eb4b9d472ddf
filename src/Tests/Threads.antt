-- ===== src/Tests/Threads.antt =====
-- The theorems on the threads of a process at a concrete interleaving.
use latte_rs.Base.{refl, true, false, some, err}
use latte_rs.Errors.{license_not_found}
use latte_rs.Threads.{
  World, start_of, with_job, with_shared, finish_checked, Reach, here, next, background, finished,
}
use latte_rs.Threads.Spacing.{Spaced, starts-Spaced}
use latte_rs.Threads.Sound.{IsSound, Reach-IsSound}
use latte_rs.Renewal.{Job, renew_in_background}
use mathlib.Core.List.{Memᴰ}
use latte_rs.Tests.Toy.{toy, chain, token, evaluation}
use latte_rs.Tests.Renewals.{licence, evening}
use latte_rs.Tests.Operations.{sdk, server, upper}
use latte_rs.Threads.Runs.{CanReach, operations-CanReach}
use latte_rs.Sdk.{check}
use latte_rs.Operations.{activate, renew, deactivate}
use latte_rs.Tests.Renewals.{masters}

abbrev started : World
started = start_of true (some (token, chain))

abbrev job : Job
job = record { number = 1; activation_id = "ACT"; license_key = "KEY" }

-- A check starts a renewal in the evening, whose answer, a refusal, it gets at once.
abbrev renewing : World
renewing =
    with_job started evening (renew_in_background false true evening licence started.shared.renewal)

abbrev ended : World
ended =
    with_shared renewing
      (finish_checked toy sdk true evening evening job (err license_not_found) renewing.shared)

first_alive : Memᴰ job.number renewing.live
unfolding evaluation renew_in_background
first_alive = Memᴰ.head refl

run : Reach toy sdk started ended
unfolding evaluation renew_in_background
run =
    next (next here (background false true evening licence))
      (finished true evening evening job (err license_not_found) first_alive)

starts-Spaced_example : Spaced ended.starts
starts-Spaced_example = starts-Spaced toy sdk true (some (token, chain)) ended run

Reach-IsSound_example : IsSound toy sdk (some (token, chain)) ended
Reach-IsSound_example = Reach-IsSound toy sdk (some (token, chain)) true ended run

-- From the state in which nothing has been renewed.
operations-CanReach_example :
    CanReach toy sdk started
      (check toy masters "machine" false true evening evening started.shared).after
    × CanReach toy sdk started
        (activate toy sdk server true true upper evening evening "KEY" started.shared).after
    × CanReach toy sdk started
        (renew toy sdk server true true evening evening evening "ACT" "KEY" started.shared).after
    × CanReach toy sdk started
        (deactivate toy sdk server true true "ACT" "KEY" started.shared).after
operations-CanReach_example =
    operations-CanReach toy sdk server true true false true upper evening evening evening "ACT"
      "KEY" started tt
