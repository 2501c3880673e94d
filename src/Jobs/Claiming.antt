-- ===== src/Jobs/Claiming.antt =====
-- The result of a claim of a job, against the rows of src/db/repositories/job-repository.ts.
use whatsapp_bot.Jobs.Claimable.{
  may_be_claimed, due_since, is_eligible-eq-may_be_claimed, due_time-eq-due_since,
}
use std.Path.{fun_ext}
use whatsapp_bot.Domain.Jobs.{processing}
use whatsapp_bot.Jobs.Rows.{get_by_reference}
use whatsapp_bot.Db.{Db}
use whatsapp_bot.Db.Exec.{ok, ◌>>=◌, Result, immediate_transaction}
use whatsapp_bot.Jobs.Invariant.{id_of, All-map-mem, IsValid, updated_row_found}
use whatsapp_bot.Jobs.Index.{WakesNone, update_jobs_succeeds}
use whatsapp_bot.Domain.Jobs.{is_active, same_status, may_become, processing}
use whatsapp_bot.Domain.Queue.{QueueJob}
use whatsapp_bot.Base.{
  ℕ, List, Pairwise, ◌≡◌, ◌<◌, true, map, ◌==◌, Memᴰ, ◌&&◌, count_if, arith, ◌∷◌, refl, [], false,
  Bool, All, count_if_none, none, some, subst, sym, Option, Text, update_where, inl, inr, ◌⊎◌,
  IsEarliest, Option-cases, earliest, earliest-none, earliest-IsEarliest, suc,
}
use whatsapp_bot.Jobs.Claim.{start, is_eligible, claim_row, claim, due_time}

abbrev is_row : QueueJob → QueueJob → Bool
is_row old j = j.id == old.id && same_status j.status old.status

start-WakesNone :
    (now : ℕ) (old : QueueJob) (rows : List QueueJob)
    → is_active old.status ≡ true
    → WakesNone (is_row old) (start now) rows
unfolding start is_active
start-WakesNone now old rows h = record {
  same_key = λ row. refl;
  still_asleep = λ row i e s. ground arith;
}

later_rows :
    (x : QueueJob) (rows : List QueueJob)
    → All (λ k. x.id < k) (map id_of rows)
    → All (λ j. is_row x j ≡ false) rows
later_rows x [] h = tt
later_rows x (y ∷ rows) h = (ground arith, later_rows x rows h.1)

-- In a valid table one row carries the number and the status of `old`.
count_one :
    (rows : List QueueJob) (old : QueueJob)
    → Pairwise ◌<◌ (map id_of rows)
    → Memᴰ old rows
    → count_if (is_row old) rows ≡ 1
count_one [] old h i = elim i [ ]
count_one (x ∷ rows) old h (Memᴰ.head e) =
    subst (λ o. count_if (is_row o) (x ∷ rows) ≡ 1) (sym e)
      (ground (arith, count_if_none (is_row x) rows (later_rows x rows h.0)))
count_one (x ∷ rows) old h (Memᴰ.tail i) =
    ground (arith, count_one rows old h.1 i, All-map-mem (λ k. x.id < k) id_of rows h.0 i)

eligible_may_start :
    (now : ℕ) (reference : Option Text) (dry_run_only : Bool) (db : Db) (row : QueueJob)
    → is_eligible now reference dry_run_only db row ≡ true
    → (may_become row.status processing ≡ true) × (is_active row.status ≡ true)
unfolding is_eligible may_become is_active
eligible_may_start now reference dry_run_only db row h = ground arith

-- The row as a claim leaves it: in processing since `now`, with one more attempt counted.
abbrev pub taken : ℕ → QueueJob → QueueJob
taken now old = record old {
  status = processing;
  attempt_count = suc old.attempt_count;
  next_attempt_at = none;
  started_at = some now;
  updated_at = now;
}

-- The result of a claim by what the SELECT returned.
abbrev pub claimed : ℕ → Db → Option QueueJob → Result (Option QueueJob) × Db
claimed now db none = (ok none, db)
claimed now db (some old) =
    (ok (some (taken now old)), record db { jobs = update_where (is_row old) (taken now) db.jobs })

claim_row_lem :
    (now : ℕ) (old : QueueJob) (db : Db)
    → IsValid db
    → Memᴰ old db.jobs
    → may_become old.status processing ≡ true
    → is_active old.status ≡ true
    → claim_row now old db ≡ (
      ok (some (start now old)),
      record db { jobs = update_where (is_row old) (start now) db.jobs },
    )
unfolding claim_row ◌>>=◌ get_by_reference start
claim_row_lem now old db v i move active = rw (
  move,
  update_jobs_succeeds (is_row old) (start now) db v (start-WakesNone now old db.jobs active),
  count_one db.jobs old v.ids_ascend i,
  updated_row_found (is_row old) (start now) db old (λ j. refl) (λ j. refl) v i (ground arith),
)

started_is_claimed :
    (now : ℕ) (old : QueueJob) (db : Db)
    → (
      ok (some (start now old)),
      record db { jobs = update_where (is_row old) (start now) db.jobs },
    )
      ≡ claimed now db (some old)
unfolding start
started_is_claimed now old db = refl

-- A claim takes the first of the jobs that pass the test, or there is none and nothing changes.
abbrev pub Taken :
    ℕ → Db → (QueueJob → Bool) → (QueueJob → ℕ) → Result (Option QueueJob) × Db → Type 0
Taken now db passes since ended =
    ((ended ≡ (ok none, db)) × All (λ row. passes row ≡ false) db.jobs)
    ⊎ ((old : QueueJob) × IsEarliest passes since db.jobs old × (ended ≡ claimed now db (some old)))

-- The claim, by the conditions of its SELECT.
claim_selected :
    (now : ℕ) (reference : Option Text) (dry_run_only : Bool) (db : Db)
    → IsValid db
    → Taken now db
        (is_eligible now reference dry_run_only db)
        due_time
        (claim now reference dry_run_only db)
unfolding claim immediate_transaction ◌>>=◌
claim_selected now reference dry_run_only db v =
    elim (Option-cases (earliest (is_eligible now reference dry_run_only db) due_time db.jobs)) [
      | inl e ↦ inl (rw e, earliest-none _ due_time db.jobs e)
      | inr (old, e) ↦
          let best =
            earliest-IsEarliest (is_eligible now reference dry_run_only db) due_time db.jobs old
              e in
          let ready = eligible_may_start now reference dry_run_only db old best.passes in
          inr (
            old,
            best,
            rw (
              e,
              claim_row_lem now old db v best.member ready.0 ready.1,
              started_is_claimed now old db,
            ),
          )
    ]

-- In a valid database a claim returns nothing and changes nothing when no job may be claimed: no
-- PENDING job and no due one in RETRY or WAITING_RATE_LIMIT, with an open destination and of those
-- asked for. Otherwise it takes, of those that may, the one that waits the longest: puts it in
-- PROCESSING, counts one more attempt, and returns it as stored. Nothing else changes.
pub claim_lem :
    (now : ℕ) (reference : Option Text) (dry_run_only : Bool) (db : Db)
    → IsValid db
    → Taken now db
        (may_be_claimed now reference dry_run_only db)
        due_since
        (claim now reference dry_run_only db)
claim_lem now reference dry_run_only db v =
    let same_test : is_eligible now reference dry_run_only db
        ≡ may_be_claimed now reference dry_run_only db =
      fun_ext (is_eligible-eq-may_be_claimed now reference dry_run_only db) in
    let same_time : due_time ≡ due_since = fun_ext due_time-eq-due_since in
    subst (λ p. Taken now db p due_since (claim now reference dry_run_only db)) same_test
      (subst
        (λ key.
          Taken now db (is_eligible now reference dry_run_only db) key
            (claim now reference dry_run_only db))
        same_time (claim_selected now reference dry_run_only db v))
