-- ===== src/Scheduler/Rounds.antt =====
-- What a round dispatches, and how long the scheduler sleeps before it.
use rust_api_boilerplate.Prelude.{
  ℕ, ◌+◌, ◌-◌, ◌≡◌, ◌≤◌, ◌<◌, min, Option, none, some, List, [], ◌∷◌, String, ltb, if◌then◌else◌,
  All, arith, refl, Bool-cases, Option-cases, inl, inr, ◌⊎◌, true, max, leb, is_ok, ◌&&◌, ◌>>=◌,
  Bool, false, Result-cases, length, length-append,
}
use rust_api_boilerplate.Queue.Dispatcher.{dispatch_value, extract_type}
use rust_api_boilerplate.Scheduler.{
  ScheduledJob, soonest, wait, dispatch_and_log, advance, round, earlier,
}

abbrev Below : ℕ → Option ℕ → Type 0
Below b none = Unit
Below b (some m) = b ≤ m

abbrev Reached : ℕ → Option ℕ → Type 0
Reached t none = ⊥
Reached t (some m) = m ≤ t

earlier-Below : (b n : ℕ) (o : Option ℕ) → Below b (earlier n o) → (b ≤ n) × Below b o
earlier-Below b n none h = (h, tt)
earlier-Below b n (some m) h = (omega (arith, h), omega (arith, h))

earlier-Reached : (t n : ℕ) (o : Option ℕ) → Reached t (earlier n o) → (n ≤ t) ⊎ Reached t o
earlier-Reached t n none h = inl h
earlier-Reached t n (some m) h = ground (arith, h)

module _ {Schedule Value : Type 0} where
  -- A job that is not due at a moment.
  abbrev pub Later : ℕ → ScheduledJob Schedule Value → Type 0
  Later now j = now < j.next_run

  -- Whether some job is due at a moment.
  abbrev pub SomeDue : ℕ → List (ScheduledJob Schedule Value) → Type 0
  SomeDue t [] = ⊥
  SomeDue t (j ∷ js) = (j.next_run ≤ t) ⊎ SomeDue t js

  Below-All :
      (b : ℕ) (js : List (ScheduledJob Schedule Value))
      → Below b (soonest js)
      → All (λ j. b ≤ j.next_run) js
  unfolding soonest
  Below-All b [] h = tt
  Below-All b (j ∷ js) h =
      let (x, y) = earlier-Below b j.next_run (soonest js) h in (x, Below-All b js y)

  Reached-SomeDue :
      (t : ℕ) (js : List (ScheduledJob Schedule Value)) → Reached t (soonest js) → SomeDue t js
  unfolding soonest
  Reached-SomeDue t [] h = h
  Reached-SomeDue t (j ∷ js) h = elim (earlier-Reached t j.next_run (soonest js) h) [
    | inl d ↦ inl d
    | inr r ↦ inr (Reached-SomeDue t js r)
  ]

  no_jobs :
      (now : ℕ) (js : List (ScheduledJob Schedule Value))
      → soonest js ≡ none
      → All (λ j. now + wait now js ≤ max now j.next_run) js
  unfolding soonest
  no_jobs now [] n = tt
  no_jobs now (j ∷ js) n = elim (Option-cases (soonest js)) [
    | inl e ↦ absurd (ground (arith, e, n))
    | inr (m, e) ↦ absurd (ground (arith, e, n))
  ]

  widen :
      (now b m : ℕ) (js : List (ScheduledJob Schedule Value))
      → b ≤ max now m
      → All (λ j. m ≤ j.next_run) js
      → All (λ j. b ≤ max now j.next_run) js
  widen now b m [] h a = tt
  widen now b m (j ∷ js) h a = (omega (arith, h, a.0), widen now b m js h a.1)

  -- The scheduler sleeps at most an hour, and not beyond the moment of any job that is not due yet;
  -- and where it sleeps less than an hour, some job is due when it wakes.
  pub wait_lem :
      (now : ℕ) (js : List (ScheduledJob Schedule Value))
      → (wait now js ≤ 3600)
        × All (λ j. now + wait now js ≤ max now j.next_run) js
        × ((wait now js ≡ 3600) ⊎ SomeDue (now + wait now js) js)
  unfolding wait
  wait_lem now js = elim (Option-cases (soonest js)) [
    | inl n ↦ (omega arith, no_jobs now js n, inl (rw n (omega arith)))
    | inr (m, n) ↦
        let w : wait now js ≡ min (m - now) 3600 = rw n refl in
        (
          omega arith,
          widen now (now + wait now js) m js (omega (arith, w))
              (Below-All m js (rw n (omega arith))),
          elim (Bool-cases (ltb (now + 3600) m)) [
            | inl l ↦ inl (ground (arith, l, w))
            | inr l ↦ inr (Reached-SomeDue (now + wait now js) js (rw n (ground (arith, l, w))))
          ],
        )
  ]

module _ {Schedule Value : Type 0} (type_of : Value → Option String)
    (default_max_attempts : ℕ) where
  -- Whether a job is due and its payload can be built and dispatched.
  abbrev pub fires : ℕ → ScheduledJob Schedule Value → Bool
  fires now j =
      leb j.next_run now
      && is_ok (do
        payload ← j.entry.build_payload now
        dispatch_value type_of 0 now default_max_attempts payload)

  abbrev pub firing : ℕ → List (ScheduledJob Schedule Value) → ℕ
  firing now [] = 0
  firing now (j ∷ js) = (if fires now j then 1 else 0) + firing now js

module _ {Schedule Value : Type 0} (after : Schedule → ℕ → Option ℕ) where
  advance-Later :
      (now : ℕ) (j : ScheduledJob Schedule Value)
      → ((s : Schedule) (t u : ℕ) → after s t ≡ some u → t < u)
      → Later now (advance after now j)
  unfolding advance
  advance-Later now j law = elim (Option-cases (after j.entry.schedule now)) [
    | inl n ↦ rw n (omega arith)
    | inr (u, n) ↦ rw n (law j.entry.schedule now u n)
  ]

  module _ (type_of : Value → Option String) (default_max_attempts : ℕ) (id : ℕ → ℕ) where
    round-Later :
        (now place : ℕ) (js : List (ScheduledJob Schedule Value))
        → ((s : Schedule) (t u : ℕ) → after s t ≡ some u → t < u)
        → All (Later now) (round type_of default_max_attempts id after now place js).0
    unfolding round
    round-Later now place [] law = tt
    round-Later now place (j ∷ js) law = elim (Bool-cases (ltb now j.next_run)) [
      | inl l ↦ rw l (ground (arith, l), round-Later now (place + 1) js law)
      | inr l ↦ rw l (advance-Later now j law, round-Later now (place + 1) js law)
    ]

    Later-quiet :
        (now place : ℕ) (js : List (ScheduledJob Schedule Value))
        → All (Later now) js
        → round type_of default_max_attempts id after now place js ≡ (js, [])
    unfolding round
    Later-quiet now place [] a = refl
    Later-quiet now place (j ∷ js) a =
        let l : ltb now j.next_run ≡ true = ground (arith, a.0) in
        rw (l, Later-quiet now (place + 1) js a.1) refl

    -- Where `after` gives only moments that are later, no occurrence is dispatched twice: a second
    -- round at the moment of a round changes no job and enqueues nothing, whatever failed in the
    -- first.
    pub round_once :
        (now place again : ℕ) (js : List (ScheduledJob Schedule Value))
        → ((s : Schedule) (t u : ℕ) → after s t ≡ some u → t < u)
        → round type_of default_max_attempts id after now again
            (round type_of default_max_attempts id after now place js).0
          ≡ ((round type_of default_max_attempts id after now place js).0, [])
    round_once now place again js law =
        Later-quiet now again (round type_of default_max_attempts id after now place js).0
          (round-Later now place js law)

    sent_count :
        (now place : ℕ) (j : ScheduledJob Schedule Value)
        → length (dispatch_and_log type_of default_max_attempts id now place j.entry) ≡ (
            if is_ok (do
              payload ← j.entry.build_payload now
              dispatch_value type_of 0 now default_max_attempts payload)
            then 1
            else 0)
    unfolding dispatch_and_log dispatch_value extract_type
    sent_count now place j = elim (Result-cases (j.entry.build_payload now)) [
      | inr (e, h) ↦ rw (h, dispatch_and_log) refl
      | inl (v, h) ↦
          rw (h, dispatch_and_log)
            (elim (Option-cases (type_of v)) [
              | inl n ↦ rw (n, dispatch_and_log) refl
              | inr (t, n) ↦ rw (n, dispatch_and_log) refl
            ])
    ]

    -- A round enqueues exactly as many envelopes as there are jobs that are due and whose payload
    -- can be built and has a type: a job that fails keeps no other from being dispatched.
    pub length-round :
        (now place : ℕ) (js : List (ScheduledJob Schedule Value))
        → length (round type_of default_max_attempts id after now place js).1
          ≡ firing type_of default_max_attempts now js
    unfolding round
    length-round now place [] = refl
    length-round now place (j ∷ js) =
        let ih = length-round now (place + 1) js in
        elim (Bool-cases (ltb now j.next_run)) [
          | inl l ↦
              let d : leb j.next_run now ≡ false = ground (arith, l) in
              rw (l, d) (omega (arith, ih))
          | inr l ↦
              let d : leb j.next_run now ≡ true = ground (arith, l) in
              rw (l, d)
                (omega (
                  arith,
                  ih,
                  sent_count now place j,
                  length-append (dispatch_and_log type_of default_max_attempts id now place j.entry)
                      (round type_of default_max_attempts id after now (place + 1) js).1,
                ))
        ]
