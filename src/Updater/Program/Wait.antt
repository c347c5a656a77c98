-- ===== src/Updater/Program/Wait.antt =====
-- src/bin/updater.rs: `wait_for_pid_exit`.
--
-- Moments are milliseconds. `alive` says whether the process is there at a moment, and `extra` how
-- much longer than half a second a round takes that starts at a moment. The loop runs on fuel.
use rust_api_boilerplate.Prelude.{
  ℕ, zero, suc, ◌+◌, ◌*◌, ◌≡◌, ◌≤◌, Bool, true, false, not, Option, none, some, leb, if◌then◌else◌,
  arith, refl, Bool-cases, inl, inr,
}

module _ (alive : ℕ → Bool) (extra : ℕ → ℕ) where
  -- The answer, and the moment of it.
  unfoldable pub wait_loop : ℕ → ℕ → ℕ → Option (Bool × ℕ)
  wait_loop zero deadline now = none
  wait_loop (suc fuel) deadline now =
      let later = wait_loop fuel deadline (now + 500 + extra now) in
      if not (alive now)
      then some (true, now)
      else if leb deadline now
      then some (false, now)
      else later

  unfoldable pub wait_for_pid_exit : ℕ → ℕ → ℕ → Option (Bool × ℕ)
  wait_for_pid_exit fuel timeout_secs now = wait_loop fuel (now + timeout_secs * 1000) now

  -- An answer is true at a moment at which the process was gone, and false at one at which the
  -- process was there, not before the deadline.
  abbrev pub Answers : ℕ → Bool × ℕ → Type 0
  Answers deadline (true, t) = alive t ≡ false
  Answers deadline (false, t) = (alive t ≡ true) × (deadline ≤ t)

  abbrev Answered : ℕ → ℕ → ℕ → Type 0
  Answered fuel deadline now =
      (r : Bool × ℕ) × (wait_loop fuel deadline now ≡ some r) × Answers deadline r × (now ≤ r.1)

  -- A round that answers, or leaves it to the later ones.
  round-Answered :
      (fuel deadline now : ℕ)
      → (leb deadline now ≡ false → Answered fuel deadline (now + 500 + extra now))
      → Answered (suc fuel) deadline now
  unfolding wait_loop
  round-Answered fuel deadline now later = elim (Bool-cases (alive now)) [
    | inr gone ↦ ((true, now), rw gone refl, gone, omega arith)
    | inl there ↦ elim (Bool-cases (leb deadline now)) [
      | inl late ↦ ((false, now), rw (there, late) refl, (there, ground (arith, late)), omega arith)
      | inr early ↦ let (r, e, a, m) = later early in (r, rw (there, early) e, a, omega (arith, m))
    ]
  ]

  loop-Answered :
      (rounds deadline now : ℕ) → deadline ≤ now + 500 * rounds → Answered (suc rounds) deadline now
  loop-Answered zero deadline now h =
      round-Answered 0 deadline now (λ early. absurd (ground (arith, h, early)))
  loop-Answered (suc rounds) deadline now h =
      round-Answered (suc rounds) deadline now
        (λ early. loop-Answered rounds deadline (now + 500 + extra now) (omega (arith, h)))

  -- With two rounds for each second of the timeout and one more, the wait ends: with true at a
  -- moment at which the process is gone, or with false at one at which it is there and the timeout
  -- is over. For the 30 seconds of the program these are 61 rounds.
  pub wait_for_pid_exit-Answers :
      (timeout_secs now : ℕ)
      → (r : Bool × ℕ) × (wait_for_pid_exit (suc (2 * timeout_secs)) timeout_secs now ≡ some r)
        × Answers (now + timeout_secs * 1000) r
        × (now ≤ r.1)
  unfolding wait_for_pid_exit
  wait_for_pid_exit-Answers timeout_secs now =
      loop-Answered (2 * timeout_secs) (now + timeout_secs * 1000) now (omega arith)
