-- ===== src/Lock/Exclusion.antt =====
-- At most one process holds the lock, as long as no process takes a lock file for abandoned.
use whatsapp_bot.Base.{
  ℕ, ◌≡◌, Bool, Option, not, ltb, sym, ◌∙◌, ◌⊎◌, ◌==◌, none, some, true, false, inl, inr, is_some,
  arith, Bool-cases, ==_iff, ◌+◌,
}
use mathlib.Core.Bool.{false≢true}
use whatsapp_bot.Lock.{
  is_own, LockPhase, LockFile, LockWorld, LockReadings, LockData, set_phase, removing, content_of,
  start_acquire, holding, writing, is_process_alive, start_release, releasing, checking_age,
  advance, removing_own,
}

-- The process has taken the lock and not given it back.
unfoldable pub owns : LockPhase → Bool
owns holding = true
owns releasing = true
owns removing_own = true
owns _ = false

unfoldable pub is_writing : LockPhase → Bool
is_writing writing = true
is_writing _ = false

unfoldable pub takes_over : LockPhase → Bool
takes_over (removing k) = true
takes_over _ = false

-- A file that is made and not written.
abbrev pub is_fresh : Option LockFile → Bool
is_fresh none = false
is_fresh (some f) = not (is_some f.content)

-- Who owns the lock is named in the file, who writes has a fresh file and writes alone, and nobody
-- is about to take over.
pub record IsExclusive (w : LockWorld) : Type 0 where
  pub named : (p : ℕ) → owns (w.phase p) ≡ true → is_own p (content_of w.file) ≡ true
  pub fresh : (p : ℕ) → is_writing (w.phase p) ≡ true → is_fresh w.file ≡ true
  pub alone : (p q : ℕ) → is_writing (w.phase p) ≡ true → is_writing (w.phase q) ≡ true → p ≡ q
  pub calm : (p : ℕ) → takes_over (w.phase p) ≡ false

-- A call that takes no lock file for abandoned: it finds the process that the file names, and the
-- file without a name younger than 30 seconds.
pub record IsCalm (p : ℕ) (at : LockReadings) (w : LockWorld) : Type 0 where
  pub finds :
      (entry : LockData) → content_of w.file ≡ some entry → is_process_alive at entry.pid ≡ true
  pub young :
      (k : ℕ) (f : LockFile)
      → w.phase p ≡ checking_age k
      → w.file ≡ some f
      → ltb at.now (f.mtime + 30000) ≡ true

-- One move of one process.
pub data Step : LockWorld → LockWorld → Type 0 where
  acquires : (p : ℕ) (w : LockWorld) → Step w (start_acquire p w)
  releases : (p : ℕ) (w : LockWorld) → Step w (start_release p w)
  calls : (p : ℕ) (at : LockReadings) (w : LockWorld) → IsCalm p at w → Step w (advance p at w)

pub data Steps : LockWorld → LockWorld → Type 0 where
  done : (w : LockWorld) → Steps w w
  more : (u v w : LockWorld) → Step u v → Steps v w → Steps u w

pub own_fresh :
    (p : ℕ) (file : Option LockFile) → is_own p (content_of file) ≡ true → is_fresh file ≡ false
own_fresh p none h = cc
own_fresh p (some f) h = ground arith

pub own_unique :
    (p q : ℕ) (content : Option LockData)
    → is_own p content ≡ true
    → is_own q content ≡ true
    → p ≡ q
own_unique p q none h k = cc
own_unique p q (some entry) h k = ground arith

-- What a move of one process to a phase and a file has to show.
pub record IsMove (p : ℕ) (phase : LockPhase) (file : Option LockFile) (w : LockWorld)
    : Type 0 where
  pub own_named : owns phase ≡ true → is_own p (content_of file) ≡ true
  pub own_fresh_file : is_writing phase ≡ true → is_fresh file ≡ true
  pub own_calm : takes_over phase ≡ false
  pub others_named :
      (q : ℕ) → (q == p) ≡ false → owns (w.phase q) ≡ true → is_own q (content_of file) ≡ true
  pub others_fresh :
      (q : ℕ) → (q == p) ≡ false → is_writing (w.phase q) ≡ true → is_fresh file ≡ true
  pub others_idle :
      is_writing phase ≡ true → (q : ℕ) → (q == p) ≡ false → is_writing (w.phase q) ≡ false

phase_cases :
    (p q : ℕ) (phase : LockPhase) (w : LockWorld)
    → ((q ≡ p) × ((set_phase p phase w).phase q ≡ phase))
      ⊎ (((q == p) ≡ false) × ((set_phase p phase w).phase q ≡ w.phase q))
unfolding set_phase
phase_cases p q phase w = elim (Bool-cases (q == p)) [
  | inl e ↦ inl ((==_iff q p).0 e, rw e)
  | inr e ↦ inr (e, rw e)
]

pub IsMove-IsExclusive :
    (p : ℕ) (phase : LockPhase) (file : Option LockFile) (w : LockWorld)
    → IsMove p phase file w
    → IsExclusive w
    → IsExclusive (set_phase p phase (record w { file = file }))
unfolding set_phase
IsMove-IsExclusive p phase file w m h = record {
  named = λ q k. elim (phase_cases p q phase w') [
    | inl (e, f) ↦ rw e (m.own_named (rw f at k))
    | inr (e, f) ↦ m.others_named q e (rw f at k)
  ];
  fresh = λ q k. elim (phase_cases p q phase w') [
    | inl (e, f) ↦ m.own_fresh_file (rw f at k)
    | inr (e, f) ↦ m.others_fresh q e (rw f at k)
  ];
  alone = λ q r k l. elim (phase_cases p q phase w') [
    | inl (e, f) ↦ elim (phase_cases p r phase w') [
      | inl (g, j) ↦ e ∙ sym g
      | inr (g, j) ↦ absurd (false≢true (sym (m.others_idle (rw f at k) r g) ∙ rw j at l))
    ]
    | inr (e, f) ↦ elim (phase_cases p r phase w') [
      | inl (g, j) ↦ absurd (false≢true (sym (m.others_idle (rw j at l) q e) ∙ rw f at k))
      | inr (g, j) ↦ h.alone q r (rw f at k) (rw j at l)
    ]
  ];
  calm = λ q. elim (phase_cases p q phase w') [
    | inl (e, f) ↦ rw f m.own_calm
    | inr (e, f) ↦ rw f (h.calm q)
  ];
}
  where
    w' : LockWorld
    w' = record w { file = file }
