-- ===== src/Queue/Database/Pick.antt =====
-- Which row `dequeue` of src/infra/queue/backends/database.rs takes.
use rust_api_boilerplate.Prelude.{
  ℕ, ◌≡◌, ◌⊎◌, ◌≤◌, Bool, true, false, Option, none, some, [], ◌∷◌, ◌++◌, String, Result, ok, err,
  inl, inr, refl, arith, All, Bool-cases, Option-cases, leb, text_eq,
}
use rust_api_boilerplate.Queue.Job.{JobEnvelope, QueueError, channel, database, serialization}
use rust_api_boilerplate.Queue.Channel.{start}
use rust_api_boilerplate.Queue.Database.{
  Row, Jobs, is_due, sooner, select, update, mark_running, new_attempts, envelope_of, dequeue,
  status_text, row_of, enqueue, has_id,
}

abbrev pub IsIdle : ℕ → Row → Type 0
IsIdle now r = is_due now r ≡ false

abbrev pub Has : Row → Jobs → Type 0
Has r [] = ⊥
Has r (x ∷ rows) = (x ≡ r) ⊎ Has r rows

-- No row that is due comes before this moment.
abbrev pub IsAfter : ℕ → ℕ → Row → Type 0
IsAfter now t x = IsIdle now x ⊎ (t ≤ x.run_at)

-- A row of the table that is due, and none is due before it.
abbrev pub IsFirst : ℕ → Jobs → Row → Type 0
IsFirst now rows r = Has r rows × (is_due now r ≡ true) × All (IsAfter now r.run_at) rows

abbrev pub IsPicked : ℕ → Jobs → Option Row → Type 0
IsPicked now rows none = All (IsIdle now) rows
IsPicked now rows (some r) = IsFirst now rows r

idle_after : (now t : ℕ) (rows : Jobs) → All (IsIdle now) rows → All (IsAfter now t) rows
idle_after now t [] a = tt
idle_after now t (r ∷ rows) a = (inl a.0, idle_after now t rows a.1)

earlier : (now s t : ℕ) (rows : Jobs) → s ≤ t → All (IsAfter now t) rows → All (IsAfter now s) rows
earlier now s t [] h a = tt
earlier now s t (r ∷ rows) h (inl i, a) = (inl i, earlier now s t rows h a)
earlier now s t (r ∷ rows) h (inr l, a) = (inr (omega (arith, h, l)), earlier now s t rows h a)

sooner-IsPicked :
    (now : ℕ) (r : Row) (rows : Jobs) (best : Option Row)
    → is_due now r ≡ true
    → IsPicked now rows best
    → IsPicked now (r ∷ rows) (sooner r best)
sooner-IsPicked now r rows none d p =
    (inl refl, d, (inr (omega arith), idle_after now r.run_at rows p))
sooner-IsPicked now r rows (some b) d p = elim (Bool-cases (leb r.run_at b.run_at)) [
  | inl e ↦
      rw e (
        inl refl,
        d,
        (inr (omega arith), earlier now r.run_at b.run_at rows (ground (arith, e)) p.2),
      )
  | inr e ↦ rw e (inr p.0, p.1, (inr (ground (arith, e)), p.2))
]

later-IsPicked :
    (now : ℕ) (r : Row) (rows : Jobs) (best : Option Row)
    → is_due now r ≡ false
    → IsPicked now rows best
    → IsPicked now (r ∷ rows) best
later-IsPicked now r rows none d p = (d, p)
later-IsPicked now r rows (some b) d p = (inr p.0, p.1, (inl d, p.2))

pub select-IsPicked : (now : ℕ) (rows : Jobs) → IsPicked now rows (select now rows)
unfolding select
select-IsPicked now [] = tt
select-IsPicked now (r ∷ rows) = elim (Bool-cases (is_due now r)) [
  | inl d ↦
      rw (d, IsPicked) (sooner-IsPicked now r rows (select now rows) d (select-IsPicked now rows))
  | inr d ↦
      rw (d, IsPicked) (later-IsPicked now r rows (select now rows) d (select-IsPicked now rows))
]

select_last :
    (now : ℕ) (rows : Jobs) (r : Row)
    → All (IsIdle now) rows
    → is_due now r ≡ true
    → select now (rows ++ (r ∷ [])) ≡ some r
unfolding select
select_last now [] r a d = rw d refl
select_last now (x ∷ rows) r a d = rw a.0 (select_last now rows r a.1 d)

module _ {Value : Type 0} (to_string : Value → Option String) (from_str : String → Option Value)
    (show_uuid : ℕ → String) (parse_uuid : String → Option ℕ) where
  -- The table in which the row is running, with its attempt counted.
  abbrev marked : Row → Jobs → Jobs
  marked r rows = update r.id (mark_running (new_attempts r)) rows

  abbrev IsOf : JobEnvelope Value → Row → Type 0
  IsOf e r =
      (parse_uuid r.id ≡ some e.id)
      × (from_str r.payload ≡ some e.payload)
      × (e.job_type ≡ r.job_type)
      × (e.attempts ≡ new_attempts r)
      × (e.max_attempts ≡ r.max_attempts)

  abbrev pub Dequeued : ℕ → Jobs → Result QueueError (Option (JobEnvelope Value)) × Jobs → Type 0
  Dequeued now rows (ok none, t) = All (IsIdle now) rows × (t ≡ rows)
  Dequeued now rows (ok (some e), t) =
      (r : Row) × IsFirst now rows r × IsOf e r × (t ≡ marked r rows)
  Dequeued now rows (err (database x), t) = t ≡ rows
  Dequeued now rows (err (serialization x), t) =
      (r : Row) × IsFirst now rows r × (from_str r.payload ≡ none) × (t ≡ marked r rows)
  Dequeued now rows (err (channel x), t) =
      (r : Row) × IsFirst now rows r × (parse_uuid r.id ≡ none) × (t ≡ marked r rows)
  Dequeued now rows (err e, t) = ⊥

  row-Dequeued :
      (now : ℕ) (rows : Jobs) (r : Row)
      → IsFirst now rows r
      → Dequeued now rows (envelope_of to_string from_str show_uuid parse_uuid r, marked r rows)
  unfolding envelope_of
  row-Dequeued now rows r p = elim (Option-cases (from_str r.payload)) [
    | inl f ↦ rw (f, Dequeued) (r, p, f, refl)
    | inr (payload, f) ↦ elim (Option-cases (parse_uuid r.id)) [
      | inl u ↦ rw (f, u, Dequeued) (r, p, u, refl)
      | inr (id, u) ↦ rw (f, u, Dequeued) (r, p, (u, f, refl, refl, refl), refl)
    ]
  ]

  picked-Dequeued :
      (now : ℕ) (rows : Jobs) (o : Option Row)
      → IsPicked now rows o
      → Dequeued now rows (elim o [
        | none ↦ (ok none, rows)
        | some r ↦ (envelope_of to_string from_str show_uuid parse_uuid r, marked r rows)
      ])
  picked-Dequeued now rows none p = (p, refl)
  picked-Dequeued now rows (some r) p = row-Dequeued now rows r p

  -- A dequeue that finds nothing means that no row is due, and changes nothing; one that gives a job
  -- takes a row that is due, with none due before it, which is running afterwards with one more
  -- attempt; an error of the database changes nothing; and an error of the row's own text comes
  -- after that row was made running.
  pub dequeue-Dequeued :
      (works : Bool) (now : ℕ) (rows : Jobs)
      → Dequeued now rows (dequeue to_string from_str show_uuid parse_uuid works now rows)
  unfolding dequeue
  dequeue-Dequeued true now rows =
      picked-Dequeued now rows (select now rows) (select-IsPicked now rows)
  dequeue-Dequeued false now rows = refl

  pub dequeue-enqueue :
      (now : ℕ) (e : JobEnvelope Value) (text : String) (rows : Jobs)
      → All (IsIdle now) rows
      → has_id (show_uuid e.id) rows ≡ false
      → status_text e.status ≡ "pending"
      → e.run_at ≤ now
      → to_string e.payload ≡ some text
      → from_str text ≡ some e.payload
      → parse_uuid (show_uuid e.id) ≡ some e.id
      → (dequeue to_string from_str show_uuid parse_uuid true now
          (enqueue to_string from_str show_uuid parse_uuid true e rows).1).0
        ≡ ok (some (start e))
  unfolding dequeue enqueue envelope_of row_of start select is_due
  dequeue-enqueue now e text rows idle free new due t f u =
      let row = row_of to_string from_str show_uuid parse_uuid e text in
      let d : is_due now row ≡ true = rw (is_due, new) (ground (arith, due)) in
      rw (t, free, select, select_last now rows row idle d, f, u) refl
