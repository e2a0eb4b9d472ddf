-- ===== src/Client/Waiting.antt =====
-- How long a call waits, and for what.
use latte_rs.Base.{
  ◌+◌, ◌≤◌, String, ◌≡◌, ◌↔◌, inl, inr, Bool-cases, Result-cases, arith, Result, ok, err, map_err,
  leb,
}
use latte_rs.Time.{Duration}
use latte_rs.Errors.{LatteError, network}
use latte_rs.Wire.{Reply}
use latte_rs.Client.{
  Helper, unstarted, replies, dies, hangs, abandon_after, Waited, timed_out, recv_timeout, post,
}

module _ (show_duration : Duration → String) (timeout : Duration) where
  abbrev pub IsTimely : Helper → Reply → Type 0
  IsTimely helper reply =
      (after : Duration) × (helper ≡ replies after (ok reply)) × (after ≤ timeout + abandon_after)

  abbrev pub IsAnswered : Helper → Waited → Type 0
  IsAnswered helper w =
      (w.1 ≤ timeout + abandon_after)
      × ((reply : Reply) → (w.0 ≡ ok reply) ↔ IsTimely helper reply)
      × ((e : LatteError) → w.0 ≡ err e → (s : String) × (e ≡ network s))

  failed-IsAnswered :
      (helper : Helper) (s : String) (waited : Duration)
      → waited ≤ timeout + abandon_after
      → ((reply : Reply) → IsTimely helper reply → ⊥)
      → IsAnswered helper (err (network s), waited)
  failed-IsAnswered helper s waited h never =
      (h, (λ reply. (λ e. cc, λ timely. absurd (never reply timely))), (λ e same. (s, cc)))

  late-IsAnswered :
      (helper : Helper)
      → ((reply : Reply) → IsTimely helper reply → ⊥)
      → IsAnswered helper (timed_out show_duration timeout)
  late-IsAnswered helper never = failed-IsAnswered helper _ _ (omega arith) never

  received-IsAnswered :
      (after : Duration) (reply : Result Reply String)
      → IsAnswered
          (replies after reply)
          (recv_timeout show_duration timeout after (map_err network reply))
  received-IsAnswered after reply = elim (Bool-cases (leb after (timeout + abandon_after))) [
    | inr late ↦ rw late (
        late-IsAnswered (replies after reply)
          (λ r (then', same, early). let e : after ≡ then' = cc in ground (arith, late, e, early)))
    | inl in_time ↦ rw in_time (elim (Result-cases reply) [
      | inl (r, good) ↦ rw good (
        ground (arith, in_time),
        (λ answer. (
          λ h. let e : r ≡ answer = cc in (after, cc, ground (arith, in_time)),
          λ (then', same, early). cc,
        )),
        (λ e h. cc),
      )
      | inr (s, bad) ↦
          rw bad
            (failed-IsAnswered _ s after (ground (arith, in_time)) (λ r (then', same, early). cc))
    ])
  ]

  -- Whatever becomes of the helper thread, even if it never ends, a call waits at most a second past
  -- its limit; it gives a reply exactly when the thread replied with it by then, and every error
  -- that it gives is a network error.
  pub post-bounded : (helper : Helper) → IsAnswered helper (post show_duration timeout helper)
  unfolding post
  post-bounded (unstarted e) =
      failed-IsAnswered (unstarted e) e 0 (omega arith) (λ reply (after, h, early). cc)
  post-bounded (replies after reply) = received-IsAnswered after reply
  post-bounded (dies after) = elim (Bool-cases (leb after (timeout + abandon_after))) [
    | inl in_time ↦ rw in_time (
        failed-IsAnswered (dies after) _ after (ground (arith, in_time))
          (λ reply (then', h, early). cc))
    | inr late ↦ rw late (late-IsAnswered (dies after) (λ reply (then', h, early). cc))
  ]
  post-bounded hangs = late-IsAnswered hangs (λ reply (after, h, early). cc)
