-- ===== src/Lock/Moves.antt =====
-- Every calm move of a process keeps the lock exclusive.
use whatsapp_bot.Base.{
  ℕ, ◌≡◌, Bool, Option, ltb, sym, ◌∙◌, ◌==◌, map_option, ==_iff, refl, none, some, true, false, inl,
  inr, suc, Bool-cases, ◌+◌, if◌then◌else◌, arith,
}
use mathlib.Core.Bool.{false≢true}
use whatsapp_bot.Lock.{
  is_own, LockWorld, start_acquire, start_release, LockPhase, open_on, open_file, LockReadings,
  write_file, read_existing, next_attempt, remove_file, advance_from, advance, LockFile, set_phase,
  content_of, writing, idle, begins_acquire, begins_release, reading, broken_off, after_read,
  opening, after_stat, holding, removing_own, releasing, LockData, refused, checking_age, removing,
  is_process_alive,
}
use whatsapp_bot.Lock.Exclusion.{
  acquires, releases, calls, done, more, IsExclusive, Steps, owns, is_writing, takes_over, Step,
  IsMove-IsExclusive, is_fresh, IsCalm, own_unique, own_fresh,
}

not_both : (b : Bool) → b ≡ true → ¬ (b ≡ false)
not_both b h k = false≢true (sym k ∙ h)

module _ (w : LockWorld) (h : IsExclusive w) (p : ℕ) where
  -- A move that leaves the file and gives up nothing but an attempt.
  plain_move :
      (phase : LockPhase)
      → owns phase ≡ false
      → is_writing phase ≡ false
      → takes_over phase ≡ false
      → IsExclusive (set_phase p phase w)
  plain_move phase o f c =
      IsMove-IsExclusive p phase w.file w
        (record {
          own_named = λ k. absurd (not_both _ k o);
          own_fresh_file = λ k. absurd (not_both _ k f);
          own_calm = c;
          others_named = λ q e k. h.named q k;
          others_fresh = λ q e k. h.fresh q k;
          others_idle = λ k. absurd (not_both _ k f);
        })
        h

  -- A move of the owner that leaves the file.
  owner_move :
      (phase : LockPhase)
      → owns (w.phase p) ≡ true
      → is_writing phase ≡ false
      → takes_over phase ≡ false
      → IsExclusive (set_phase p phase w)
  owner_move phase o f c =
      IsMove-IsExclusive p phase w.file w
        (record {
          own_named = λ k. h.named p o;
          own_fresh_file = λ k. absurd (not_both _ k f);
          own_calm = c;
          others_named = λ q e k. h.named q k;
          others_fresh = λ q e k. h.fresh q k;
          others_idle = λ k. absurd (not_both _ k f);
        })
        h

  open_move :
      (k : ℕ) (at : LockReadings) (file : Option LockFile)
      → w.file ≡ file
      → IsExclusive (open_on p k at w file)
  unfolding open_on owns is_writing takes_over
  open_move k at none e =
      IsMove-IsExclusive p writing _ w
        (record {
          own_named = λ o. cc;
          own_fresh_file = λ o. refl;
          own_calm = refl;
          others_named = λ q d o. absurd (false≢true (rw e at (h.named q o)));
          others_fresh = λ q d o. absurd (false≢true (rw e at (h.fresh q o)));
          others_idle = λ o q d. nobody_writes q;
        })
        h
    where
      nobody_writes : (q : ℕ) → is_writing (w.phase q) ≡ false
      nobody_writes q = elim (Bool-cases (is_writing (w.phase q))) [
        | inl o ↦ absurd (false≢true (rw e at (h.fresh q o)))
        | inr o ↦ o
      ]
  open_move k at (some f) e = plain_move (reading k) refl refl refl

  open_file_move : (k : ℕ) (at : LockReadings) → IsExclusive (open_file p k at w)
  unfolding open_file open_on owns is_writing takes_over
  open_file_move k at = elim (Bool-cases at.broken) [
    | inl e ↦ rw e (plain_move broken_off refl refl refl)
    | inr e ↦ rw e (open_move k at w.file refl)
  ]

  written : LockReadings → Option LockFile → Option LockFile
  written at file =
      map_option
        (λ f. record { content = some (record { pid = p; started_at = at.now }); mtime = at.now })
        file

  written_own :
      (at : LockReadings) (file : Option LockFile)
      → is_fresh file ≡ true
      → is_own p (content_of (written at file)) ≡ true
  unfolding written
  written_own at none e = cc
  written_own at (some f) e = ground arith

  write_move : (at : LockReadings) → w.phase p ≡ writing → IsExclusive (write_file p at w)
  unfolding write_file owns is_writing takes_over written
  write_move at e = elim (Bool-cases at.broken) [
    | inl b ↦ rw b (plain_move broken_off refl refl refl)
    | inr b ↦
        let writes : is_writing (w.phase p) ≡ true = rw e refl in
        rw b (
          IsMove-IsExclusive p holding (written at w.file) w
            (record {
              own_named = λ o. written_own at w.file (h.fresh p writes);
              own_fresh_file = λ o. cc;
              own_calm = refl;
              others_named = λ q d o.
                  absurd (not_both _ (h.fresh p writes) (own_fresh q w.file (h.named q o)));
              others_fresh = λ q d o. absurd (different q d (h.alone q p o writes));
              others_idle = λ o. cc;
            })
            h)
  ]
    where
      different : (q : ℕ) → (q == p) ≡ false → ¬ (q ≡ p)
      different q d e = not_both _ ((==_iff q p).1 e) d

  read_move :
      (k : ℕ) (at : LockReadings)
      → IsCalm p at w
      → IsExclusive (set_phase p (after_read at k (read_existing at w)) w)
  unfolding read_existing owns is_writing takes_over is_process_alive
  read_move k at calm = elim (Bool-cases at.broken) [
    | inl e ↦ rw e (plain_move (checking_age k) refl refl refl)
    | inr e ↦ rw e (by_content (content_of w.file) refl)
  ]
    where
      by_content :
          (content : Option LockData)
          → content_of w.file ≡ content
          → IsExclusive (set_phase p (after_read at k content) w)
      by_content none e = plain_move (checking_age k) refl refl refl
      by_content (some entry) e = rw (calm.finds entry e) (plain_move refused refl refl refl)

  retry_move : (k : ℕ) → IsExclusive (set_phase p (next_attempt k) w)
  unfolding next_attempt owns is_writing takes_over
  retry_move k = elim (Bool-cases (ltb (suc k) 2)) [
    | inl e ↦ rw e (plain_move (opening (suc k)) refl refl refl)
    | inr e ↦ rw e (plain_move refused refl refl refl)
  ]

  stat_move :
      (k : ℕ) (at : LockReadings) (file : Option LockFile)
      → ((f : LockFile) → file ≡ some f → ltb at.now (f.mtime + 30000) ≡ true)
      → IsExclusive (set_phase p (after_stat at k file) w)
  unfolding owns is_writing takes_over
  stat_move k at none young = retry_move k
  stat_move k at (some f) young = elim (Bool-cases at.broken) [
    | inl e ↦ rw e (plain_move broken_off refl refl refl)
    | inr e ↦ rw (e, young f refl) (plain_move refused refl refl refl)
  ]

  released_move :
      (at : LockReadings) → owns (w.phase p) ≡ true → IsExclusive (remove_file p idle holding at w)
  unfolding remove_file owns is_writing takes_over
  released_move at o = elim (Bool-cases at.broken) [
    | inl e ↦ rw e (owner_move holding o refl refl)
    | inr e ↦ rw e (
        IsMove-IsExclusive p idle none w
          (record {
            own_named = λ k. cc;
            own_fresh_file = λ k. cc;
            own_calm = refl;
            others_named = λ q d k. absurd (
                not_both _
                  ((==_iff q p).1 (own_unique q p (content_of w.file) (h.named q k) (h.named p o)))
                  d);
            others_fresh =
                λ q d k. absurd (not_both _ (h.fresh q k) (own_fresh p w.file (h.named p o)));
            others_idle = λ k. cc;
          })
          h)
  ]

  releasing_move :
      (b : Bool)
      → owns (w.phase p) ≡ true
      → IsExclusive (set_phase p (if b then removing_own else idle) w)
  unfolding owns is_writing takes_over
  releasing_move true o = owner_move removing_own o refl refl
  releasing_move false o = owner_move idle o refl refl

  call_move :
      (at : LockReadings) (phase : LockPhase)
      → w.phase p ≡ phase
      → IsCalm p at w
      → IsExclusive (advance_from p at w phase)
  unfolding advance_from owns takes_over
  call_move at (opening k) e calm = open_file_move k at
  call_move at writing e calm = write_move at e
  call_move at (reading k) e calm = read_move k at calm
  call_move at (checking_age k) e calm = stat_move k at w.file (λ f j. calm.young k f e j)
  call_move at (removing k) e calm = absurd (false≢true (sym (h.calm p) ∙ rw e refl))
  call_move at releasing e calm = releasing_move (is_own p (read_existing at w)) (rw e refl)
  call_move at removing_own e calm = released_move at (rw e refl)
  call_move at idle e calm = h
  call_move at holding e calm = h
  call_move at refused e calm = h
  call_move at broken_off e calm = h

  same_move : (phase : LockPhase) → w.phase p ≡ phase → IsExclusive (set_phase p phase w)
  same_move phase e =
      IsMove-IsExclusive p phase w.file w
        (record {
          own_named = λ k. h.named p (rw e k);
          own_fresh_file = λ k. h.fresh p (rw e k);
          own_calm = rw (← e) (h.calm p);
          others_named = λ q d k. h.named q k;
          others_fresh = λ q d k. h.fresh q k;
          others_idle = λ k q d. nobody_else q d (rw e k);
        })
        h
    where
      nobody_else :
          (q : ℕ)
          → (q == p) ≡ false
          → is_writing (w.phase p) ≡ true
          → is_writing (w.phase q) ≡ false
      nobody_else q d k = elim (Bool-cases (is_writing (w.phase q))) [
        | inl o ↦ absurd (not_both _ ((==_iff q p).1 (h.alone q p o k)) d)
        | inr o ↦ o
      ]

  acquire_move :
      (phase : LockPhase) → w.phase p ≡ phase → IsExclusive (set_phase p (begins_acquire phase) w)
  unfolding owns is_writing takes_over
  acquire_move idle e = plain_move (opening 0) refl refl refl
  acquire_move refused e = plain_move (opening 0) refl refl refl
  acquire_move broken_off e = plain_move (opening 0) refl refl refl
  acquire_move holding e = same_move holding e
  acquire_move writing e = same_move writing e
  acquire_move releasing e = same_move releasing e
  acquire_move removing_own e = same_move removing_own e
  acquire_move (opening k) e = same_move (opening k) e
  acquire_move (reading k) e = same_move (reading k) e
  acquire_move (checking_age k) e = same_move (checking_age k) e
  acquire_move (removing k) e = same_move (removing k) e

  release_move :
      (phase : LockPhase) → w.phase p ≡ phase → IsExclusive (set_phase p (begins_release phase) w)
  unfolding owns is_writing takes_over
  release_move holding e = owner_move releasing (rw e refl) refl refl
  release_move idle e = same_move idle e
  release_move refused e = same_move refused e
  release_move broken_off e = same_move broken_off e
  release_move writing e = same_move writing e
  release_move releasing e = same_move releasing e
  release_move removing_own e = same_move removing_own e
  release_move (opening k) e = same_move (opening k) e
  release_move (reading k) e = same_move (reading k) e
  release_move (checking_age k) e = same_move (checking_age k) e
  release_move (removing k) e = same_move (removing k) e

step-IsExclusive : (u v : LockWorld) → Step u v → IsExclusive u → IsExclusive v
unfolding start_acquire start_release advance
step-IsExclusive u v (acquires p w) h = acquire_move w h p (w.phase p) refl
step-IsExclusive u v (releases p w) h = release_move w h p (w.phase p) refl
step-IsExclusive u v (calls p at w calm) h = call_move w h p at (w.phase p) refl calm

Steps-IsExclusive : (u v : LockWorld) → Steps u v → IsExclusive u → IsExclusive v
Steps-IsExclusive u v (done w) h = h
Steps-IsExclusive u v (more a b c s ss) h = Steps-IsExclusive b c ss (step-IsExclusive a b s h)

-- From a state where an owner is named in the file, a writer is alone with a fresh file and nobody
-- takes over, in any interleaving of calls by any processes in which no call takes a lock file for
-- abandoned, two processes that own the lock are the same, and the file names it.
pub owners_agree :
    (start later : LockWorld) (p q : ℕ)
    → IsExclusive start
    → Steps start later
    → owns (later.phase p) ≡ true
    → owns (later.phase q) ≡ true
    → (p ≡ q) × (is_own p (content_of later.file) ≡ true)
owners_agree start later p q h s o k =
    let e = Steps-IsExclusive start later s h in
    (own_unique p q (content_of later.file) (e.named p o) (e.named q k), e.named p o)
