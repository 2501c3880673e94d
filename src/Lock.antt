-- ===== src/Lock.antt =====
-- src/lock/process-lock.ts: the lock file of the daemon. Several processes call it, each cut at its
-- file system calls; `mkdirSync` is left out.
pub mod Exclusion
pub mod Endings
pub mod Moves
use whatsapp_bot.Base.{
  ℕ, Option, Bool, none, some, false, suc, if◌then◌else◌, not, ◌==◌, ◌&&◌, ltb, map_option, ◌+◌,
}

pub record LockData : Type 0 where
  pub pid : ℕ
  pub started_at : ℕ

-- The file: its parsed content, if it can be parsed, and the time of the last change.
pub record LockFile : Type 0 where
  pub content : Option LockData
  pub mtime : ℕ

-- What a process is about to do; a number counts the attempts of `acquire`. `refused` is an
-- `AlreadyRunningError`, `broken_off` another error.
pub data LockPhase : Type 0 where
  idle holding writing releasing removing_own refused broken_off : LockPhase
  opening reading checking_age removing : ℕ → LockPhase

pub record LockWorld : Type 0 where
  pub file : Option LockFile
  pub phase : ℕ → LockPhase

-- What a file system call meets: the clock, the processes that `process.kill(pid, 0)` finds, and
-- whether the call fails with an error that the code does not expect.
pub record LockReadings : Type 0 where
  pub now : ℕ
  pub found : ℕ → Bool
  pub broken : Bool

unfoldable pub set_phase : ℕ → LockPhase → LockWorld → LockWorld
set_phase p phase w = record w { phase = λ q. if q == p then phase else w.phase q }

-- `isProcessAlive`: a pid of 0 is nobody.
unfoldable pub is_process_alive : LockReadings → ℕ → Bool
is_process_alive at pid = not (pid == 0) && at.found pid

-- The head of the loop: two attempts.
unfoldable pub next_attempt : ℕ → LockPhase
next_attempt attempt = if ltb (suc attempt) 2 then opening (suc attempt) else refused

-- `openSync(path, 'wx')`: the file is made, or EEXIST.
unfoldable pub open_on : ℕ → ℕ → LockReadings → LockWorld → Option LockFile → LockWorld
open_on p attempt at w none =
    set_phase p writing (record w { file = some (record { content = none; mtime = at.now }) })
open_on p attempt at w (some f) = set_phase p (reading attempt) w

unfoldable pub open_file : ℕ → ℕ → LockReadings → LockWorld → LockWorld
open_file p attempt at w =
    if at.broken then set_phase p broken_off w else open_on p attempt at w w.file

-- `writeFileSync` into the open descriptor.
unfoldable pub write_file : ℕ → LockReadings → LockWorld → LockWorld
write_file p at w =
    if at.broken
    then set_phase p broken_off w
    else set_phase p holding (record w {
      file =
          map_option
            (λ f. record {
              content = some (record { pid = p; started_at = at.now });
              mtime = at.now;
            })
            w.file;
    })

abbrev pub content_of : Option LockFile → Option LockData
content_of none = none
content_of (some f) = f.content

-- `readExisting`: every failure is null.
unfoldable pub read_existing : LockReadings → LockWorld → Option LockData
read_existing at w = if at.broken then none else content_of w.file

abbrev pub after_read : LockReadings → ℕ → Option LockData → LockPhase
after_read at attempt none = checking_age attempt
after_read at attempt (some entry) =
    if is_process_alive at entry.pid then refused else removing attempt

-- `statSync`, and the age of the file.
abbrev pub after_stat : LockReadings → ℕ → Option LockFile → LockPhase
after_stat at attempt none = next_attempt attempt
after_stat at attempt (some f) =
    if at.broken
    then broken_off
    else if ltb at.now (f.mtime + 30000)
    then refused
    else removing attempt

-- `rmSync(path, { force: true })`
unfoldable pub remove_file : ℕ → LockPhase → LockPhase → LockReadings → LockWorld → LockWorld
remove_file p next_phase on_error at w =
    if at.broken then set_phase p on_error w else set_phase p next_phase (record w { file = none })

-- `existing?.pid === process.pid`
abbrev pub is_own : ℕ → Option LockData → Bool
is_own p none = false
is_own p (some entry) = entry.pid == p

-- The next file system call of a process, and what the code makes of it.
unfoldable pub advance_from : ℕ → LockReadings → LockWorld → LockPhase → LockWorld
advance_from p at w (opening k) = open_file p k at w
advance_from p at w writing = write_file p at w
advance_from p at w (reading k) = set_phase p (after_read at k (read_existing at w)) w
advance_from p at w (checking_age k) = set_phase p (after_stat at k w.file) w
advance_from p at w (removing k) = remove_file p (next_attempt k) broken_off at w
advance_from p at w releasing =
    set_phase p (if is_own p (read_existing at w) then removing_own else idle) w
advance_from p at w removing_own = remove_file p idle holding at w
advance_from p at w idle = w
advance_from p at w holding = w
advance_from p at w refused = w
advance_from p at w broken_off = w

unfoldable pub advance : ℕ → LockReadings → LockWorld → LockWorld
advance p at w = advance_from p at w (w.phase p)

abbrev pub begins_acquire : LockPhase → LockPhase
begins_acquire idle = opening 0
begins_acquire refused = opening 0
begins_acquire broken_off = opening 0
begins_acquire phase = phase

-- `acquire` of a process that is not inside a call and does not hold the lock, and `release`, which
-- does nothing where the lock is not held.
unfoldable pub start_acquire : ℕ → LockWorld → LockWorld
start_acquire p w = set_phase p (begins_acquire (w.phase p)) w

abbrev pub begins_release : LockPhase → LockPhase
begins_release holding = releasing
begins_release phase = phase

unfoldable pub start_release : ℕ → LockWorld → LockWorld
start_release p w = set_phase p (begins_release (w.phase p)) w
