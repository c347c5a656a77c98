-- ===== src/Queue/Database/Stuck.antt =====
-- A job that src/infra/queue/backends/database.rs has made running, and that nobody finishes.
use rust_api_boilerplate.Prelude.{
  ℕ, ◌≡◌, ◌≢◌, ◌⊎◌, Bool, true, false, Option, none, some, List, [], ◌∷◌, ◌++◌, String, err, inl,
  inr, refl, sym, ◌∙◌, All, Bool-cases, Option-cases, ◌==◌, text_eq, arith, not, ◌&&◌,
}
use rust_api_boilerplate.Queue.Job.{JobEnvelope, serialization}
use rust_api_boilerplate.Queue.Database.{
  Row, Jobs, select, update, mark_running, new_attempts, row_of, enqueue, envelope_of, dequeue,
  acknowledge, fail, has_id,
}

-- The calls of the backend, each with whether the database carries it out.
pub data Op (Value : Type 0) : Type 0 where
  enqueue_op : Bool → JobEnvelope Value → Op Value
  dequeue_op : Bool → ℕ → Op Value
  acknowledge_op : Bool → ℕ → Op Value
  fail_op : Bool → ℕ → ℕ → String → Option ℕ → Op Value

-- A row of this id is running.
abbrev pub IsRunning : String → Row → Type 0
IsRunning id r = (r.id ≢ id) ⊎ (r.status ≡ "running")

IsRunning-append :
    (id : String) (rows : Jobs) (r : Row)
    → All (IsRunning id) rows
    → r.id ≢ id
    → All (IsRunning id) (rows ++ (r ∷ []))
IsRunning-append id [] r a n = (inl n, tt)
IsRunning-append id (x ∷ rows) r a n = (a.0, IsRunning-append id rows r a.1 n)

IsRunning-update :
    (id other : String) (change : Row → Row) (rows : Jobs)
    → ((r : Row) → r.id ≡ other → IsRunning id r → IsRunning id (change r))
    → All (IsRunning id) rows
    → All (IsRunning id) (update other change rows)
unfolding update
IsRunning-update id other change [] k a = tt
IsRunning-update id other change (r ∷ rows) k a = elim (Bool-cases (r.id == other)) [
  | inl e ↦
      rw e (k r ((text_eq.beq_iff r.id other).0 e) a.0, IsRunning-update id other change rows k a.1)
  | inr e ↦ rw e (a.0, IsRunning-update id other change rows k a.1)
]

marked-IsRunning :
    (id : String) (r : Row) (rows : Jobs)
    → All (IsRunning id) rows
    → All (IsRunning id) (update r.id (mark_running (new_attempts r)) rows)
unfolding mark_running
marked-IsRunning id r rows a =
    IsRunning-update id r.id (mark_running (new_attempts r)) rows (λ x e b. inr refl) a

mark_running-IsRunning :
    (r : Row) (rows : Jobs)
    → All (IsRunning r.id) (update r.id (mark_running (new_attempts r)) rows)
unfolding update mark_running
mark_running-IsRunning r [] = tt
mark_running-IsRunning r (x ∷ rows) = elim (Bool-cases (x.id == r.id)) [
  | inl e ↦ rw e (inr refl, mark_running-IsRunning r rows)
  | inr e ↦ rw e (
    inl (λ h. absurd (ground (arith, e, h, text_eq.beq_iff x.id r.id))),
    mark_running-IsRunning r rows,
  )
]

module _ {Value : Type 0} (to_string : Value → Option String) (from_str : String → Option Value)
    (show_uuid : ℕ → String) (parse_uuid : String → Option ℕ) where
  unfoldable pub apply : Op Value → Jobs → Jobs
  apply (enqueue_op works e) rows = (enqueue to_string from_str show_uuid parse_uuid works e rows).1
  apply (dequeue_op works now) rows =
      (dequeue to_string from_str show_uuid parse_uuid works now rows).1
  apply (acknowledge_op works id) rows = (acknowledge show_uuid works id rows).1
  apply (fail_op works now id error at) rows = (fail show_uuid works now id error at rows).1

  unfoldable pub apply_all : List (Op Value) → Jobs → Jobs
  apply_all [] rows = rows
  apply_all (o ∷ ops) rows = apply_all ops (apply o rows)

  -- The call is not about the job: nobody finishes it or gives its id away again.
  abbrev pub Spares : String → Op Value → Type 0
  Spares id (enqueue_op works e) = show_uuid e.id ≢ id
  Spares id (dequeue_op works now) = Unit
  Spares id (acknowledge_op works k) = show_uuid k ≢ id
  Spares id (fail_op works now k error at) = show_uuid k ≢ id

  spared :
      (id : String) (k : ℕ) (change : Row → Row) (rows : Jobs)
      → show_uuid k ≢ id
      → ((r : Row) → (change r).id ≡ r.id)
      → All (IsRunning id) rows
      → All (IsRunning id) (update (show_uuid k) change rows)
  spared id k change rows n keeps a =
      IsRunning-update id (show_uuid k) change rows
        (λ r e b. inl (λ h. n (sym e ∙ sym (keeps r) ∙ h))) a

  apply-IsRunning :
      (id : String) (o : Op Value) (rows : Jobs)
      → Spares id o
      → All (IsRunning id) rows
      → All (IsRunning id) (apply o rows)
  unfolding apply enqueue dequeue acknowledge fail row_of
  apply-IsRunning id (enqueue_op works e) rows n a = elim (Option-cases (to_string e.payload)) [
    | inl t ↦ rw (All, t, enqueue) a
    | inr (text, t) ↦ elim (Bool-cases (works && not (has_id (show_uuid e.id) rows))) [
      | inl w ↦
          rw (All, t, w, enqueue)
            (IsRunning-append id rows (row_of to_string from_str show_uuid parse_uuid e text) a n)
      | inr w ↦ rw (All, t, w, enqueue) a
    ]
  ]
  apply-IsRunning id (dequeue_op true now) rows n a = elim (Option-cases (select now rows)) [
    | inl s ↦ rw (All, s, dequeue) a
    | inr (r, s) ↦ rw (All, s, dequeue) (marked-IsRunning id r rows a)
  ]
  apply-IsRunning id (dequeue_op false now) rows n a = a
  apply-IsRunning id (acknowledge_op true k) rows n a = spared id k _ rows n (λ r. refl) a
  apply-IsRunning id (acknowledge_op false k) rows n a = a
  apply-IsRunning id (fail_op true now k error (some at)) rows n a =
      spared id k _ rows n (λ r. refl) a
  apply-IsRunning id (fail_op true now k error none) rows n a = spared id k _ rows n (λ r. refl) a
  apply-IsRunning id (fail_op false now k error (some at)) rows n a = a
  apply-IsRunning id (fail_op false now k error none) rows n a = a

  apply_all-IsRunning :
      (id : String) (ops : List (Op Value)) (rows : Jobs)
      → All (Spares id) ops
      → All (IsRunning id) rows
      → All (IsRunning id) (apply_all ops rows)
  unfolding apply_all
  apply_all-IsRunning id [] rows n a = a
  apply_all-IsRunning id (o ∷ ops) rows n a =
      apply_all-IsRunning id ops (apply o rows) n.1 (apply-IsRunning id o rows n.0 a)

  pub unreadable_stuck :
      (now : ℕ) (rows : Jobs) (r : Row) (ops : List (Op Value))
      → select now rows ≡ some r
      → from_str r.payload ≡ none
      → All (Spares r.id) ops
      → ((dequeue to_string from_str show_uuid parse_uuid true now rows).0
          ≡ err (serialization r.payload))
        × All
            (IsRunning r.id)
            (apply_all ops (dequeue to_string from_str show_uuid parse_uuid true now rows).1)
  unfolding dequeue envelope_of
  unreadable_stuck now rows r ops s f n =
      rw (s, f)
        (
          refl,
          apply_all-IsRunning r.id ops (update r.id (mark_running (new_attempts r)) rows) n
              (mark_running-IsRunning r rows),
        )
