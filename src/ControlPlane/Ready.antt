-- ===== src/ControlPlane/Ready.antt =====
-- How the wait for the container ends (`_container_ready` in prax_sandbox/control_plane.py).
use prax_sandbox.Base.{
  ℕ, zero, suc, ◌+◌, ◌<◌, ◌≤◌, ◌≡◌, inl, inr, Bool, true, false, Option, none, some, arith,
  Bool-cases, Option-cases, nat_eq, leb,
}
use prax_sandbox.Text.{text_eq}
use prax_sandbox.Exec.{SandboxConfig}
use prax_sandbox.ControlPlane.{World, probes, poll, container_ready}

-- The times at which a turn of the loop begins: at first, and after a command that failed and was over
-- before the deadline.
pub data IsTurn (world : World) (config : SandboxConfig) (deadline start : ℕ) : ℕ → Type 0 where
  first : IsTurn world config deadline start start
  next :
      {t over : ℕ}
      → IsTurn world config deadline start t
      → world.later t ≡ some over
      → probes world config t ≡ false
      → over < deadline
      → IsTurn world config deadline start (world.awake over)

-- The ways in which the wait may end, at one of its turns: the command never returns; it ran; or it
-- failed and is over at the deadline or after it.
abbrev pub IsEnd : World → SandboxConfig → ℕ → ℕ → Option Bool → Type 0
IsEnd world config deadline start none =
    (t : ℕ) × IsTurn world config deadline start t × (world.later t ≡ none)
IsEnd world config deadline start (some true) =
    (t : ℕ) × (over : ℕ) × IsTurn world config deadline start t
    × (world.later t ≡ some over)
    × (probes world config t ≡ true)
IsEnd world config deadline start (some false) =
    (t : ℕ) × (over : ℕ) × IsTurn world config deadline start t
    × (world.later t ≡ some over)
    × (probes world config t ≡ false)
    × (deadline ≤ over)

module _ (world : World) (config : SandboxConfig)
    (later-forward : (t over : ℕ) → world.later t ≡ some over → t ≤ over)
    (awake-forward : (t : ℕ) → t + 1 ≤ world.awake t) where
  turn-ends :
      (deadline start k now : ℕ)
      → IsTurn world config deadline start now
      → ((over : ℕ)
          → now ≤ over
          → over < deadline
          → IsTurn world config deadline start (world.awake over)
          → IsEnd world config deadline start (poll world config deadline k (world.awake over)))
      → IsEnd world config deadline start (poll world config deadline (suc k) now)
  unfolding poll
  turn-ends deadline start k now turn again = elim (Option-cases (world.later now)) [
    | inl stuck ↦ rw (stuck, poll) (now, turn, stuck)
    | inr (over, back) ↦ elim (Bool-cases (probes world config now)) [
      | inl e ↦ rw (back, e, poll) (now, over, turn, back, e)
      | inr e ↦ elim (Bool-cases (leb deadline over)) [
        | inl late ↦ rw (back, e, late, poll) (now, over, turn, back, e, ground arith)
        | inr left ↦
            let early : over < deadline = ground arith in
            rw (back, e, left, poll)
              (again over (later-forward now over back) early (next turn back e early))
      ]
    ]
  ]

  poll-ends :
      (deadline start k now : ℕ)
      → deadline ≤ now + k
      → IsTurn world config deadline start now
      → IsEnd world config deadline start (poll world config deadline (suc k) now)
  poll-ends deadline start zero now enough turn =
      turn-ends deadline start zero now turn (λ over on early next'. absurd (omega arith))
  poll-ends deadline start (suc k) now enough turn =
      turn-ends deadline start (suc k) now turn (λ over on early next'.
        let on' = awake-forward over in
        poll-ends deadline start k (world.awake over) (omega arith) next')

  -- Where the clock does not go back while a command runs, and a sleep of half a second takes as long
  -- at least: `_container_ready` ends at one of its turns, whose commands before have all failed
  -- before the deadline: with true, if the command ran; with false, if it failed and the time is
  -- over; or else that command never returns, and neither does `_container_ready`.
  pub container_ready-ends :
      (timeout now : ℕ)
      → IsEnd world config (now + timeout) now (container_ready world config timeout now)
  unfolding container_ready
  container_ready-ends timeout now = poll-ends (now + timeout) now timeout now (omega arith) first
