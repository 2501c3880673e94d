-- ===== src/Tests/Locks.antt =====
-- The theorems on the process lock at small runs, and a run in which two processes take it.
use whatsapp_bot.Lock.Moves.{owners_agree}
use whatsapp_bot.Lock.Endings.{Turn, is_over, take_turns, acquire_ends, LeavesPhase}
use whatsapp_bot.Base.{
  List, ◌≡◌, ◌||◌, ◌==◌, refl, [], none, some, true, false, ◌∷◌, if◌then◌else◌, arith, ℕ, All,
}
use whatsapp_bot.Lock.{
  LockWorld, LockReadings, advance, is_own, idle, start_acquire, advance_from, open_file, set_phase,
  reading, open_on, write_file, remove_file, read_existing, is_process_alive, content_of,
  next_attempt, holding,
}
use whatsapp_bot.Lock.Exclusion.{acquires, calls, done, more, Steps, owns, is_writing, takes_over}

abbrev readings : LockReadings
readings = record { now = 100; found = λ pid. true; broken = false }

abbrev unlocked : LockWorld
unlocked = record { file = none; phase = λ p. idle }

abbrev holder : ℕ
holder = 1

abbrev opening_world : LockWorld
opening_world = start_acquire 1 unlocked

abbrev locked : LockWorld
locked = advance 1 readings (advance 1 readings opening_world)

locked_reached : Steps unlocked locked
unfolding start_acquire advance advance_from open_file open_on write_file set_phase
locked_reached = more unlocked opening_world locked (acquires 1 unlocked) (
    more opening_world (advance 1 readings opening_world) locked
      (calls 1 readings opening_world (record { finds = λ entry e. cc; young = λ k f e j. cc }))
      (more (advance 1 readings opening_world) locked locked
        (calls 1 readings (advance 1 readings opening_world)
          (record { finds = λ entry e. cc; young = λ k f e j. cc }))
        (done locked)))

owners_agree_example : (holder ≡ holder) × (is_own 1 (content_of locked.file) ≡ true)
unfolding start_acquire advance advance_from open_file open_on write_file set_phase owns is_writing
    takes_over
owners_agree_example =
    owners_agree unlocked locked holder holder
      (record { named = λ p h. cc; fresh = λ p h. cc; alone = λ p q h k. cc; calm = λ p. refl })
      locked_reached refl refl

abbrev turn : Turn
turn = record { at = readings; others = λ w. w }

abbrev nine_turns : List Turn
nine_turns = turn ∷ turn ∷ turn ∷ turn ∷ turn ∷ turn ∷ turn ∷ turn ∷ turn ∷ []

turns_leave : All (LeavesPhase 1) nine_turns
turns_leave = (
  (λ w. refl),
  (
    (λ w. refl),
    (
      (λ w. refl),
      ((λ w. refl), ((λ w. refl), ((λ w. refl), ((λ w. refl), ((λ w. refl), ((λ w. refl), tt)))))),
    ),
  ),
)

acquire_ends_example : is_over ((take_turns 1 nine_turns opening_world).phase 1) ≡ true
unfolding start_acquire set_phase
acquire_ends_example = acquire_ends 1 nine_turns opening_world refl turns_leave (omega arith)

-- Process 7 is dead; processes 1 and 2 have found its file.
abbrev abandoned : LockWorld
abandoned = record {
  file = some (record { content = some (record { pid = 7; started_at = 0 }); mtime = 0 });
  phase = λ p. if p == 1 || p == 2 then reading 0 else idle;
}

abbrev nobody_found : LockReadings
nobody_found = record { now = 100; found = λ pid. false; broken = false }

abbrev call : ℕ → LockWorld → LockWorld
call p w = advance p nobody_found w

-- Both read the file; the first removes it and takes the lock; the second removes the new file and
-- takes the lock as well.
abbrev race : LockWorld
race = call 2 (call 2 (call 2 (call 1 (call 1 (call 1 (call 2 (call 1 abandoned)))))))

both_hold : (race.phase 1 ≡ holding) × (race.phase 2 ≡ holding)
unfolding advance advance_from open_file open_on write_file remove_file set_phase read_existing
    is_process_alive next_attempt
both_hold = (refl, refl)
