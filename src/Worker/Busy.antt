-- ===== src/Worker/Busy.antt =====
-- worker.rs: the busy handler and the window that bounds its wait. Times are in milliseconds; what a
use sqlite_mcp.Prelude.{
  ℕ, suc, ◌+◌, ◌*◌, ◌≤◌, ◌<◌, ◌≡◌, refl, ap, ◌∙◌, inl, inr, Bool, true, false, ◌&&◌, Option, none,
  some, List, [], ◌∷◌, arith, leb, if◌then◌else◌, Bool-cases, unwrap_or, subst,
}

-- call reads of tokens and of the clock is an argument.

-- Whether there is a token to be cancelled is a flag.
pub record BusyState : Type 0 where
  pub token : Bool
  pub deadline : Option ℕ
  pub budget : ℕ
  pub first_retry : Option ℕ

-- What one call of the handler reads, in the order of the reads: whether a shutdown was requested,
-- whether the token is cancelled, and the clock, once for the deadline and once for the budget.
pub record Reading : Type 0 where
  pub shutdown : Bool
  pub cancelled : Bool
  pub now_deadline : ℕ
  pub now : ℕ

abbrev pub is_past : Option ℕ → ℕ → Bool
is_past none now = false
is_past (some deadline) now = leb deadline now

-- `busy_retry`: whether to try again, and the window behind the call.
unfoldable pub busy_retry : Option BusyState → Reading → Bool × Option BusyState
busy_retry none r = (false, none)
busy_retry (some s) r =
    let first = unwrap_or s.first_retry r.now in
    let started : BusyState = record s { first_retry = some first } in
    if r.shutdown
    then (false, some s)
    else if s.token && r.cancelled
    then (false, some s)
    else if is_past s.deadline r.now_deadline
    then (false, some s)
    else if leb (first + s.budget) r.now
    then (false, some started)
    else (true, some started)

-- `BusyGuard::install` and `enter_cleanup`: a window with a budget alone.
unfoldable pub cleanup_window : ℕ → Option BusyState
cleanup_window budget =
    some (record { token = false; deadline = none; budget = budget; first_retry = none })

-- `enter_request`: the window of a request.
unfoldable pub request_window : ℕ → ℕ → Option BusyState
request_window deadline budget =
    some (record { token = true; deadline = some deadline; budget = budget; first_retry = none })

-- `Drop for BusyGuard`.
unfoldable pub no_window : Option BusyState
no_window = none

-- How often the handler asks for another try, call after call.
unfoldable pub retries : Option BusyState → List Reading → ℕ
unfolding busy_retry
retries s [] = 0
retries s (r ∷ rs) =
    let (again, s') = busy_retry s r in let rest = retries s' rs in if again then suc rest else 0

-- Each call reads the clock at least ten milliseconds, which the handler sleeps, behind the one
-- before it, and the first one not before `t`.
abbrev pub IsSpaced : ℕ → List Reading → Type 0
IsSpaced t [] = Unit
IsSpaced t (r ∷ rs) = (t ≤ r.now) × IsSpaced (r.now + 10) rs

-- Another try is asked for only inside the budget, which runs from the first try.
again_lem :
    (s : BusyState) (r : Reading)
    → (busy_retry (some s) r).0 ≡ true
    → let first = unwrap_or s.first_retry r.now in
      (r.now < first + s.budget)
      × ((busy_retry (some s) r).1 ≡ some (record s { first_retry = some first }))
unfolding busy_retry
again_lem s r h = ground (arith, h)

-- One more try, in a window that started or starts now.
retry_lem :
    (s : BusyState) (first : ℕ) (r : Reading) (rs : List Reading)
    → unwrap_or s.first_retry r.now ≡ first
    → (busy_retry (some s) r).0 ≡ true
    → (r.now < first + s.budget)
      × (retries (some s) (r ∷ rs)
          ≡ suc (retries (some (record s { first_retry = some first })) rs))
unfolding retries
retry_lem s first r rs h again =
    let (inside, started) = again_lem s r again in
    (
      subst (λ f. r.now < f + s.budget) h inside,
      ap (λ b. if b then suc (retries (busy_retry (some s) r).1 rs) else 0) again
          ∙ ap (λ w. suc (retries w rs)) started
          ∙ ap (λ f. suc (retries (some (record s { first_retry = some f })) rs)) h,
    )

retries_from :
    (s : BusyState) (first t : ℕ) (rs : List Reading)
    → s.first_retry ≡ some first
    → IsSpaced t rs
    → 0 < retries (some s) rs
    → t + 10 * retries (some s) rs < first + s.budget + 10
unfolding retries
retries_from s first t [] h spaced p = omega (arith, p)
retries_from s first t (r ∷ rs) h (here, later) p = elim (Bool-cases (busy_retry (some s) r).0) [
  | inr q ↦ ground (arith, p, q)
  | inl q ↦
      let window : BusyState = record s { first_retry = some first } in
      let ih : 0 < retries (some window) rs
          → r.now + 10 + 10 * retries (some window) rs < first + s.budget + 10 =
        λ k. retries_from window first (r.now + 10) rs refl later k in
      ground (arith, retry_lem s first r rs (ap (λ f. unwrap_or f r.now) h) q, here, ih)
]

-- In a window whose first try is still to come, the handler asks for another try at most once for
-- each started ten milliseconds of the budget, since it sleeps that long before it is called again.
pub retries_bounded :
    (window : BusyState) (rs : List Reading)
    → window.first_retry ≡ none
    → IsSpaced 0 rs
    → 10 * retries (some window) rs < window.budget + 10
unfolding retries
retries_bounded s [] h spaced = omega arith
retries_bounded s (r ∷ rs) h (here, later) = elim (Bool-cases (busy_retry (some s) r).0) [
  | inr q ↦ ground (arith, q)
  | inl q ↦
      let window : BusyState = record s { first_retry = some r.now } in
      let ih : 0 < retries (some window) rs
          → r.now + 10 + 10 * retries (some window) rs < r.now + s.budget + 10 =
        λ k. retries_from window r.now (r.now + 10) rs refl later k in
      ground (arith, retry_lem s r.now r rs (ap (λ f. unwrap_or f r.now) h) q, ih)
]
