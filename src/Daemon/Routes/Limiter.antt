-- ===== src/Daemon/Routes/Limiter.antt =====
-- `_Limiter` of prax_sandbox/daemon/app.py: how many commands run at once. There is no `await`
-- between the test and the semaphore that is free, so a request enters in one step.
use prax_sandbox.Base.{
  ℕ, suc, ◌+◌, ◌-◌, ◌≤◌, ◌≡◌, ◌↔◌, refl, List, [], ◌∷◌, if◌then◌else◌, ◌==◌, nat_eq, arith, inl,
  inr, Bool-cases,
}

pub data LimitEvent : Type 0 where
  enter leave : LimitEvent

-- The value of the semaphore, and how many run.
pub record Limiter : Type 0 where
  pub value : ℕ
  pub running : ℕ

pub data Entry : Type 0 where
  entered left too_many_requests : Entry

abbrev pub new_limiter : ℕ → Limiter
new_limiter n = record { value = n; running = 0 }

-- Only what runs leaves; `too_many_requests` is the 429.
unfoldable pub limit_step : Limiter → LimitEvent → Limiter × Entry
limit_step l enter =
    if l.value == 0
    then (l, too_many_requests)
    else (record { value = l.value - 1; running = suc l.running }, entered)
limit_step l leave =
    if l.running == 0
    then (l, left)
    else (record { value = suc l.value; running = l.running - 1 }, left)

unfoldable pub limit_run : Limiter → List LimitEvent → Limiter
unfolding limit_step
limit_run l [] = l
limit_run l (e ∷ events) = limit_run (limit_step l e).0 events

limit_step-sum :
    (l : Limiter) (e : LimitEvent)
    → (limit_step l e).0.value + (limit_step l e).0.running ≡ l.value + l.running
unfolding limit_step
limit_step-sum l enter = ground arith
limit_step-sum l leave = ground arith

limit_run-sum :
    (events : List LimitEvent) (l : Limiter)
    → (limit_run l events).value + (limit_run l events).running ≡ l.value + l.running
unfolding limit_run
limit_run-sum [] l = refl
limit_run-sum (e ∷ events) l =
    ground (arith, limit_step-sum l e, limit_run-sum events (limit_step l e).0)

-- However requests enter and leave, no more than the limit run at once, and a request is refused
-- with 429 just when as many as the limit run.
pub limit_run-bound :
    (n : ℕ) (events : List LimitEvent)
    → ((limit_run (new_limiter n) events).running ≤ n)
      × (((limit_step (limit_run (new_limiter n) events) enter).1 ≡ too_many_requests)
          ↔ ((limit_run (new_limiter n) events).running ≡ n))
unfolding limit_step
limit_run-bound n events =
    let l = limit_run (new_limiter n) events in
    let sum : l.value + l.running ≡ n = omega (arith, limit_run-sum events (new_limiter n)) in
    (
      omega arith,
      elim (Bool-cases (l.value == 0)) [
        | inl e ↦ (λ h. ground arith, λ h. rw (e, limit_step) refl)
        | inr e ↦ (
          λ h. let h' : entered ≡ too_many_requests = rw (e, limit_step) at h in cc,
          λ h. ground arith,
        )
      ],
    )
