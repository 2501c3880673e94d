-- ===== src/Lock/Endings.antt =====
-- `acquire` ends after a bounded number of file system calls, whatever other processes do.
use whatsapp_bot.Lock.{
  LockPhase, set_phase, next_attempt, LockReadings, opening, LockWorld, advance_from, holding,
  open_file, write_file, remove_file, reading, advance, refused, checking_age, LockData, LockFile,
  removing, read_existing, broken_off, after_read, after_stat, writing, idle, is_process_alive,
  releasing, removing_own, open_on,
}
use whatsapp_bot.Base.{
  ℕ, ◌≡◌, ◌≤◌, Bool, ◌⊎◌, ◌*◌, refl, true, false, inl, inr, suc, zero, [], none, some, ◌∷◌, ◌+◌,
  List, ◌-◌, ltb, arith, subst, Option, sym, Bool-cases, All, length,
}

-- A bound on the calls that are left.
unfoldable pub calls_left : LockPhase → ℕ
calls_left (opening k) = 1 + 4 * (2 - k)
calls_left (reading k) = 4 * (2 - k)
calls_left (checking_age k) = 3 + 4 * (1 - k)
calls_left (removing k) = 2 + 4 * (1 - k)
calls_left writing = 1
calls_left _ = 0

-- The phases of `acquire` are over: the lock is held, or an error is thrown.
unfoldable pub is_over : LockPhase → Bool
is_over holding = true
is_over refused = true
is_over broken_off = true
is_over _ = false

-- The phases inside `acquire`, with the attempts that the loop makes.
unfoldable pub is_acquiring : LockPhase → Bool
is_acquiring (opening k) = ltb k 2
is_acquiring (reading k) = ltb k 2
is_acquiring (checking_age k) = ltb k 2
is_acquiring (removing k) = ltb k 2
is_acquiring writing = true
is_acquiring _ = false

pub own_phase : (p : ℕ) (phase : LockPhase) (w : LockWorld) → (set_phase p phase w).phase p ≡ phase
unfolding set_phase
own_phase p phase w = ground arith

-- A phase after a call: over, or still acquiring with fewer calls left.
Advances : ℕ → LockPhase → Type 0
Advances bound phase =
    (is_over phase ≡ true) ⊎ ((is_acquiring phase ≡ true) × (suc (calls_left phase) ≤ bound))

next_attempt-Advances : (k : ℕ) → Advances (2 + 4 * (1 - k)) (next_attempt k)
unfolding Advances next_attempt is_over is_acquiring calls_left
next_attempt-Advances zero = inr (refl, omega arith)
next_attempt-Advances (suc k) =
    let last : ltb (suc (suc k)) 2 ≡ false = ground arith in inl (rw last)

module _ (p : ℕ) (at : LockReadings) (w : LockWorld) where
  moved_to :
      (bound : ℕ) (phase : LockPhase) (v : LockWorld)
      → Advances bound phase
      → Advances bound ((set_phase p phase v).phase p)
  moved_to bound phase v h = subst (Advances bound) (sym (own_phase p phase v)) h

  over : (bound : ℕ) (phase : LockPhase) → is_over phase ≡ true → Advances bound phase
  unfolding Advances
  over bound phase h = inl h

  onward :
      (bound : ℕ) (phase : LockPhase)
      → is_acquiring phase ≡ true
      → suc (calls_left phase) ≤ bound
      → Advances bound phase
  unfolding Advances
  onward bound phase h k = inr (h, k)

  open_on-Advances :
      (k : ℕ) (file : Option LockFile)
      → ltb k 2 ≡ true
      → Advances (calls_left (opening k)) ((open_on p k at w file).phase p)
  unfolding open_on calls_left is_acquiring
  open_on-Advances k none h = moved_to _ writing _ (onward _ writing refl (ground arith))
  open_on-Advances k (some f) h = moved_to _ (reading k) w (onward _ (reading k) h (omega arith))

  open-Advances :
      (k : ℕ) → ltb k 2 ≡ true → Advances (calls_left (opening k)) ((open_file p k at w).phase p)
  unfolding open_file is_over open_on
  open-Advances k h = elim (Bool-cases at.broken) [
    | inl e ↦ rw e (moved_to _ broken_off w (over _ broken_off refl))
    | inr e ↦ rw e (open_on-Advances k w.file h)
  ]

  write-Advances : Advances 1 ((write_file p at w).phase p)
  unfolding write_file is_over
  write-Advances = elim (Bool-cases at.broken) [
    | inl e ↦ rw e (moved_to 1 broken_off w (over 1 broken_off refl))
    | inr e ↦ rw e (moved_to 1 holding _ (over 1 holding refl))
  ]

  read-Advances :
      (k : ℕ) (found : Option LockData)
      → ltb k 2 ≡ true
      → Advances (calls_left (reading k)) ((set_phase p (after_read at k found) w).phase p)
  unfolding calls_left is_over is_acquiring
  read-Advances k none h =
      moved_to _ (checking_age k) w (onward _ (checking_age k) h (ground arith))
  read-Advances k (some entry) h = elim (Bool-cases (is_process_alive at entry.pid)) [
    | inl e ↦ rw e (moved_to _ refused w (over _ refused refl))
    | inr e ↦ rw e (moved_to _ (removing k) w (onward _ (removing k) h (ground arith)))
  ]

  retried : (k bound : ℕ) → 2 + 4 * (1 - k) ≤ bound → Advances bound (next_attempt k)
  unfolding Advances
  retried k bound h = elim (next_attempt-Advances k) [
    | inl e ↦ inl e
    | inr (e, f) ↦
        inr (e, (let f' : suc (calls_left (next_attempt k)) ≤ 2 + 4 * (1 - k) = f in omega arith))
  ]

  stat-Advances :
      (k : ℕ) (file : Option LockFile)
      → ltb k 2 ≡ true
      → Advances (calls_left (checking_age k)) ((set_phase p (after_stat at k file) w).phase p)
  unfolding calls_left is_over is_acquiring
  stat-Advances k none h = moved_to _ (next_attempt k) w (retried k _ (omega arith))
  stat-Advances k (some f) h = elim (Bool-cases at.broken) [
    | inl e ↦ rw e (moved_to _ broken_off w (over _ broken_off refl))
    | inr e ↦ elim (Bool-cases (ltb at.now (f.mtime + 30000))) [
      | inl j ↦ rw (e, j) (moved_to _ refused w (over _ refused refl))
      | inr j ↦ rw (e, j) (moved_to _ (removing k) w (onward _ (removing k) h (omega arith)))
    ]
  ]

  remove-Advances :
      (k : ℕ)
      → Advances
          (calls_left (removing k))
          ((remove_file p (next_attempt k) broken_off at w).phase p)
  unfolding remove_file calls_left is_over
  remove-Advances k = elim (Bool-cases at.broken) [
    | inl e ↦ rw e (moved_to _ broken_off w (over _ broken_off refl))
    | inr e ↦ rw e (moved_to _ (next_attempt k) _ (retried k _ (omega arith)))
  ]

  from_phase :
      (phase : LockPhase)
      → is_acquiring phase ≡ true
      → Advances (calls_left phase) ((advance_from p at w phase).phase p)
  unfolding advance_from is_acquiring calls_left
  from_phase (opening k) h = open-Advances k h
  from_phase (reading k) h = read-Advances k (read_existing at w) h
  from_phase (checking_age k) h = stat-Advances k w.file h
  from_phase (removing k) h = remove-Advances k
  from_phase writing h = write-Advances
  from_phase idle h = cc
  from_phase holding h = cc
  from_phase releasing h = cc
  from_phase removing_own h = cc
  from_phase refused h = cc
  from_phase broken_off h = cc

-- What others do before a call of the process leaves its phase alone.
pub record Turn : Type 0 where
  pub at : LockReadings
  pub others : LockWorld → LockWorld

unfoldable pub take_turns : ℕ → List Turn → LockWorld → LockWorld
take_turns p [] w = w
take_turns p (t ∷ ts) w = take_turns p ts (advance p t.at (t.others w))

abbrev pub LeavesPhase : ℕ → Turn → Type 0
LeavesPhase p t = (w : LockWorld) → (t.others w).phase p ≡ w.phase p

advance_over :
    (p : ℕ) (at : LockReadings) (w : LockWorld) (phase : LockPhase)
    → is_over phase ≡ true
    → advance_from p at w phase ≡ w
unfolding advance_from is_over
advance_over p at w holding h = refl
advance_over p at w refused h = refl
advance_over p at w broken_off h = refl
advance_over p at w idle h = cc
advance_over p at w writing h = cc
advance_over p at w releasing h = cc
advance_over p at w removing_own h = cc
advance_over p at w (opening k) h = cc
advance_over p at w (reading k) h = cc
advance_over p at w (checking_age k) h = cc
advance_over p at w (removing k) h = cc

nothing_left : (phase : LockPhase) → is_acquiring phase ≡ true → ¬ (calls_left phase ≤ 0)
unfolding is_acquiring calls_left
nothing_left (opening k) h left = omega arith
nothing_left (reading k) h left = ground arith
nothing_left (checking_age k) h left = omega arith
nothing_left (removing k) h left = omega arith
nothing_left writing h left = omega arith
nothing_left idle h left = cc
nothing_left holding h left = cc
nothing_left releasing h left = cc
nothing_left removing_own h left = cc
nothing_left refused h left = cc
nothing_left broken_off h left = cc

-- A turn of the process in one of the phases of `acquire`.
turn_advances :
    (p : ℕ) (t : Turn) (w : LockWorld) (bound : ℕ)
    → LeavesPhase p t
    → is_acquiring (w.phase p) ≡ true
    → calls_left (w.phase p) ≤ suc bound
    → let after = (advance p t.at (t.others w)).phase p in
      (is_over after ≡ true) ⊎ ((is_acquiring after ≡ true) × (calls_left after ≤ bound))
unfolding advance Advances
turn_advances p t w bound k h left =
    let same : (t.others w).phase p ≡ w.phase p = k w in
    let ahead = from_phase p t.at (t.others w) ((t.others w).phase p) (rw same h) in
    elim ahead [ inl e ↦ inl e | inr (e, f) ↦ inr (e, shorter _ _ _ f (rw same left)) ]
  where
    shorter : (a b c : ℕ) → suc a ≤ b → b ≤ suc c → a ≤ c
    shorter a b c f g = omega arith

turns_end :
    (p : ℕ) (turns : List Turn) (w : LockWorld)
    → All (LeavesPhase p) turns
    → (is_over (w.phase p) ≡ true)
      ⊎ ((is_acquiring (w.phase p) ≡ true) × (calls_left (w.phase p) ≤ length turns))
    → is_over ((take_turns p turns w).phase p) ≡ true
unfolding take_turns advance
turns_end p [] w k (inl h) = h
turns_end p [] w k (inr (h, left)) = absurd (nothing_left (w.phase p) h left)
turns_end p (t ∷ ts) w k (inl h) = turns_end p ts _ k.1 (
    inl (
      let same : (t.others w).phase p ≡ w.phase p = k.0 w in
      rw (advance_over p t.at (t.others w) ((t.others w).phase p) (rw same h), same) h))
turns_end p (t ∷ ts) w k (inr (h, left)) =
    turns_end p ts _ k.1 (turn_advances p t w (length ts) k.0 h left)

-- After nine file system calls at the latest, whatever the calls meet and whatever other processes
-- do before each, a process that has called `acquire` holds the lock or has thrown an error.
pub acquire_ends :
    (p : ℕ) (turns : List Turn) (w : LockWorld)
    → w.phase p ≡ opening 0
    → All (LeavesPhase p) turns
    → 9 ≤ length turns
    → is_over ((take_turns p turns w).phase p) ≡ true
unfolding is_acquiring calls_left
acquire_ends p turns w h k enough = turns_end p turns w k (inr (rw h refl, rw h enough))
