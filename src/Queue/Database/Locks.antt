-- ===== src/Queue/Database/Locks.antt =====
-- src/infra/queue/backends/database.rs: the transactions of `dequeue` of several workers at once.
--
-- A transaction locks the row that it selects and skips the rows that others have locked; it ends
-- with its update and commit, or is rolled back. `held` has the rows as the open transactions read
-- them.
use rust_api_boilerplate.Prelude.{
  ℕ, ◌≡◌, true, false, Option, none, some, List, [], ◌∷◌, String, inl, inr, refl, subst, ap, All,
  Bool-cases, Option-cases, if◌then◌else◌, ◌==◌, text_eq, arith, ==_refl,
}
use rust_api_boilerplate.Queue.Database.{
  Row, Jobs, select, update, mark_running, new_attempts, has_id, dequeue,
}
use rust_api_boilerplate.Queue.Database.Pick.{Has, IsPicked, select-IsPicked}

pub record Transactions : Type 0 where
  pub rows : Jobs
  pub held : Jobs

-- The rows that no transaction has locked.
unfoldable pub unlocked : Jobs → Jobs → Jobs
unlocked held [] = []
unlocked held (r ∷ rows) =
    let rest = unlocked held rows in if has_id r.id held then rest else r ∷ rest

-- `SELECT .. FOR UPDATE SKIP LOCKED`
unfoldable pub lock : ℕ → Transactions → Transactions
lock now s = elim (select now (unlocked s.held s.rows)) [
  | none ↦ s
  | some r ↦ record s { held = r ∷ s.held }
]

-- The open transaction on this id, if there is one.
unfoldable pub holder : String → Jobs → Option Row
holder id [] = none
holder id (r ∷ held) = let rest = holder id held in if r.id == id then some r else rest

unfoldable pub release : String → Jobs → Jobs
release id [] = []
release id (r ∷ held) = let rest = release id held in if r.id == id then rest else r ∷ rest

-- The update and the commit.
unfoldable pub commit : String → Transactions → Transactions
commit id s = elim (holder id s.held) [
  | none ↦ s
  | some r ↦ record {
    rows = update id (mark_running (new_attempts r)) s.rows;
    held = release id s.held;
  }
]

unfoldable pub roll_back : String → Transactions → Transactions
roll_back id s = record s { held = release id s.held }

pub data Act : Type 0 where
  locks : ℕ → Act
  commits : String → Act
  rolls_back : String → Act

unfoldable pub act : Act → Transactions → Transactions
act (locks now) s = lock now s
act (commits id) s = commit id s
act (rolls_back id) s = roll_back id s

unfoldable pub act_all : List Act → Transactions → Transactions
act_all [] s = s
act_all (a ∷ acts) s = act_all acts (act a s)

-- No two of them have the same id.
abbrev pub IsDistinct : Jobs → Type 0
IsDistinct [] = Unit
IsDistinct (r ∷ held) = (has_id r.id held ≡ false) × IsDistinct held

-- No job is held twice, and each held row is still in the table as it was read.
abbrev pub IsExclusive : Transactions → Type 0
IsExclusive s = IsDistinct s.held × All (λ r. Has r s.rows) s.held

unlocked-Has :
    (held rows : Jobs) (r : Row)
    → Has r (unlocked held rows)
    → Has r rows × (has_id r.id held ≡ false)
unfolding unlocked
unlocked-Has held [] r h = absurd h
unlocked-Has held (x ∷ rows) r h = elim (Bool-cases (has_id x.id held)) [
  | inl l ↦
      let t =
        unlocked-Has held rows r
          (subst (λ b. Has r (if b then unlocked held rows else x ∷ unlocked held rows)) l h) in
      (inr t.0, t.1)
  | inr l ↦
      free held rows x r l
        (subst (λ b. Has r (if b then unlocked held rows else x ∷ unlocked held rows)) l h)
        (unlocked-Has held rows r)
]
  where
    free :
        (held rows : Jobs) (x r : Row)
        → has_id x.id held ≡ false
        → Has r (x ∷ unlocked held rows)
        → (Has r (unlocked held rows) → Has r rows × (has_id r.id held ≡ false))
        → Has r (x ∷ rows) × (has_id r.id held ≡ false)
    free held rows x r l (inl e) k = (inl e, subst (λ y. has_id y.id held ≡ false) e l)
    free held rows x r l (inr h) k = (inr (k h).0, (k h).1)

release-has_id :
    (id other : String) (held : Jobs)
    → has_id other held ≡ false
    → has_id other (release id held) ≡ false
unfolding release
release-has_id id other [] h = refl
release-has_id id other (r ∷ held) h = ground (arith, h, release-has_id id other held)

release-IsDistinct : (id : String) (held : Jobs) → IsDistinct held → IsDistinct (release id held)
unfolding release
release-IsDistinct id [] d = tt
release-IsDistinct id (r ∷ held) d = elim (Bool-cases (r.id == id)) [
  | inl e ↦ rw (e, IsDistinct) (release-IsDistinct id held d.1)
  | inr e ↦ rw (e, IsDistinct) (release-has_id id r.id held d.0, release-IsDistinct id held d.1)
]

Has-update :
    (id : String) (change : Row → Row) (rows : Jobs) (r : Row)
    → (r.id == id) ≡ false
    → Has r rows
    → Has r (update id change rows)
unfolding update
Has-update id change [] r n h = absurd h
Has-update id change (x ∷ rows) r n (inl e) = inl (rw (e, n) refl)
Has-update id change (x ∷ rows) r n (inr h) = inr (Has-update id change rows r n h)

-- What is held after a release stays in a table where only the released row changed.
release-All :
    (id : String) (rows rows' held : Jobs)
    → ((r : Row) → (r.id == id) ≡ false → Has r rows → Has r rows')
    → All (λ r. Has r rows) held
    → All (λ r. Has r rows') (release id held)
unfolding release
release-All id rows rows' [] k a = tt
release-All id rows rows' (r ∷ held) k a = elim (Bool-cases (r.id == id)) [
  | inl e ↦ rw (e, All) (release-All id rows rows' held k a.1)
  | inr e ↦ rw (e, All) (k r e a.0, release-All id rows rows' held k a.1)
]

act-IsExclusive : (a : Act) (s : Transactions) → IsExclusive s → IsExclusive (act a s)
unfolding act lock commit roll_back
act-IsExclusive (locks now) s x = elim (Option-cases (select now (unlocked s.held s.rows))) [
  | inl e ↦ rw (e, lock) x
  | inr (r, e) ↦
      let p =
        subst (IsPicked now (unlocked s.held s.rows)) e
          (select-IsPicked now (unlocked s.held s.rows)) in
      let (h, f) = unlocked-Has s.held s.rows r p.0 in rw (e, lock) ((f, x.0), (h, x.1))
]
act-IsExclusive (commits id) s x = elim (Option-cases (holder id s.held)) [
  | inl e ↦ rw (e, commit) x
  | inr (r, e) ↦
      rw (e, commit)
        (
          release-IsDistinct id s.held x.0,
          release-All id s.rows (update id (mark_running (new_attempts r)) s.rows) s.held
              (Has-update id (mark_running (new_attempts r)) s.rows) x.1,
        )
]
act-IsExclusive (rolls_back id) s x =
    (release-IsDistinct id s.held x.0, release-All id s.rows s.rows s.held (λ r n h. h) x.1)

-- However the transactions of several workers lock, commit and roll back, no two open ones hold the
-- same job, and the row that each has read is still the one in the table, if this is so before.
pub act_all-IsExclusive :
    (acts : List Act) (s : Transactions) → IsExclusive s → IsExclusive (act_all acts s)
unfolding act_all
act_all-IsExclusive [] s x = x
act_all-IsExclusive (a ∷ acts) s x = act_all-IsExclusive acts (act a s) (act-IsExclusive a s x)

unlocked_none : (rows : Jobs) → unlocked [] rows ≡ rows
unfolding unlocked
unlocked_none [] = refl
unlocked_none (r ∷ rows) = ap (λ rest. r ∷ rest) (unlocked_none rows)

lock_first :
    (now : ℕ) (rows : Jobs) (r : Row)
    → select now rows ≡ some r
    → lock now (record { rows = rows; held = [] }) ≡ record { rows = rows; held = r ∷ [] }
unfolding lock
lock_first now rows r e = rw (lock, unlocked_none rows, e) refl

-- A transaction that meets no other does to the table what `dequeue` does in one step.
pub commit-lock :
    {Value : Type 0} (to_string : Value → Option String) (from_str : String → Option Value)
    (show_uuid : ℕ → String) (parse_uuid : String → Option ℕ) (now : ℕ) (rows : Jobs) (r : Row)
    → select now rows ≡ some r
    → (commit r.id (lock now (record { rows = rows; held = [] }))).rows
      ≡ (dequeue to_string from_str show_uuid parse_uuid true now rows).1
unfolding commit holder dequeue
commit-lock to_string from_str show_uuid parse_uuid now rows r e =
    rw (lock_first now rows r e, commit, holder, ==_refl r.id, e)
      (ap (λ (t : Transactions). update r.id (mark_running (new_attempts r)) t.rows)
        (lock_first now rows r e))
