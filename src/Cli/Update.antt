-- ===== src/Cli/Update.antt =====
-- src/cli/update-command.ts: `wts update`.
pub mod Steps
pub mod Plan
pub mod Order
use whatsapp_bot.Domain.Errors.{plain}
use whatsapp_bot.Targets.{trim}
use whatsapp_bot.Controller.{truthy}
use whatsapp_bot.Db.Exec.{ok, Exec, ◌>>◌, ◌>>=◌, pure, throw_if, or_throw}
use whatsapp_bot.Base.{
  [], none, some, true, false, ◌∷◌, Text, Option, List, Bool, ℕ, text_eq, text, not, ◌++◌,
  map_option, or_else, ◌==◌, is_some, ◌||◌, ◌&&◌, is_empty,
}

-- A call of the runner.
pub record Invocation : Type 0 where
  pub command : Text
  pub args : List Text
  pub cwd : Text
  pub capture : Bool

-- An exit code and an error of the spawn, where there are any.
pub record CommandResult : Type 0 where
  pub status : Option ℕ
  pub stdout : Text
  pub error : Option Text

-- What a command answers may depend on the commands that ran before.
abbrev pub Runner : Type 0
Runner = List Invocation → Invocation → CommandResult

-- What the command reads of its host: platform, user, environment, the file with the recorded
-- checkout if it exists, `resolve` of paths, which files exist, and the manifest, `none` where it is
-- no JSON.
pub record UpdateHost : Type 0 where
  pub is_linux : Bool
  pub uid : Option ℕ
  pub env_source : Option Text
  pub source_record : Option Text
  pub resolve : Text → List Text → Text
  pub exists : Text → Bool
  pub manifest_name : Text → Option (Option Text)

pub record UpdateOptions : Type 0 where
  pub source_dir : Option Text
  pub skip_pull : Bool

unfoldable pub recorded_source : UpdateHost → Option Text
recorded_source host = truthy (map_option trim host.source_record)

-- `options.sourceDir ?? process.env.WTS_SOURCE_DIR ?? recordedSource(…)`, where the empty text
-- counts as none in the end.
unfoldable pub configured_source : UpdateHost → UpdateOptions → Option Text
configured_source host options =
    truthy (or_else options.source_dir (or_else host.env_source (recorded_source host)))

abbrev pub is_expected : Option (Option Text) → Bool
is_expected (some (some name)) = text_eq name (text "sajadbot-whatsapp")
is_expected _ = false

abbrev pub upgrade_path : UpdateHost → Text → Text
upgrade_path host dir = host.resolve dir (text "scripts" ∷ text "upgrade.sh" ∷ [])

unfoldable pub validate_source : UpdateHost → Text → Exec (List Invocation) (Unit {0})
validate_source host dir = do
  throw_if
      (not (host.exists (host.resolve dir (text "package.json" ∷ [])))
        || not (host.exists (upgrade_path host dir)))
      (plain "Invalid source checkout")
  throw_if (not (is_expected (host.manifest_name (host.resolve dir (text "package.json" ∷ [])))))
      (plain "Unexpected package in source checkout")

abbrev is_zero : Option ℕ → Bool
is_zero none = false
is_zero (some n) = n == 0

-- `!result.error && result.status === 0`
abbrev pub ended_well : CommandResult → Bool
ended_well result = not (is_some result.error) && is_zero result.status

unfoldable pub run_command : Runner → Invocation → Exec (List Invocation) CommandResult
run_command runner call ran = (ok (runner ran call), ran ++ call ∷ [])

unfoldable pub run_step : Runner → Invocation → Exec (List Invocation) (Unit {0})
run_step runner call = do
  result ← run_command runner call
  throw_if (not (ended_well result)) (plain "A step of the update failed")

abbrev pub step : Text → Text → List Text → Invocation
step dir command args = record { command = command; args = args; cwd = dir; capture = false }

abbrev pub status_call : Text → Invocation
status_call dir = record {
  command = text "git";
  args = text "status" ∷ text "--porcelain" ∷ [];
  cwd = dir;
  capture = true;
}

abbrev pub pull_call : Text → Invocation
pull_call dir = step dir (text "git") (text "pull" ∷ text "--ff-only" ∷ [])

unfoldable pub check_clean : Runner → Text → Exec (List Invocation) (Unit {0})
check_clean runner dir = do
  result ← run_command runner (status_call dir)
  throw_if (not (ended_well result)) (plain "Unable to inspect the source checkout")
  throw_if (not (is_empty (trim result.stdout))) (plain "The source checkout has local changes")

unfoldable pub pull : Runner → Text → Bool → Exec (List Invocation) (Unit {0})
pull runner dir true = pure tt
pull runner dir false = do check_clean runner dir; run_step runner (pull_call dir)

-- The steps after the pull, in their order.
unfoldable pub deploy_calls : UpdateHost → Text → List Invocation
deploy_calls host dir =
    step dir (text "npm") (text "ci" ∷ [])
    ∷ step dir (text "npm") (text "run" ∷ text "typecheck" ∷ [])
    ∷ step dir (text "npm") (text "run" ∷ text "lint" ∷ [])
    ∷ step dir (text "npm") (text "test" ∷ [])
    ∷ step dir (text "npm") (text "run" ∷ text "build" ∷ [])
    ∷ step dir (text "bash") (upgrade_path host dir ∷ [])
    ∷ []

unfoldable pub run_steps : Runner → List Invocation → Exec (List Invocation) (Unit {0})
run_steps runner [] = pure tt
run_steps runner (call ∷ calls) = do run_step runner call; run_steps runner calls

unfoldable pub update_from : UpdateHost → Runner → Bool → Text → Exec (List Invocation) Text
update_from host runner skip_pull dir = do
  validate_source host dir
  pull runner dir skip_pull
  run_steps runner (deploy_calls host dir)
  pure dir

abbrev pub is_root : Option ℕ → Bool
is_root none = false
is_root (some uid) = uid == 0

-- `runUpdate`
unfoldable pub run_update : UpdateHost → Runner → UpdateOptions → Exec (List Invocation) Text
run_update host runner options = do
  throw_if (not host.is_linux) (plain "wts update is supported only on Linux")
  throw_if (not (is_root host.uid)) (plain "Run the update as root: sudo wts update")
  source ← or_throw (configured_source host options) (plain "No source checkout is configured")
  update_from host runner options.skip_pull (host.resolve source [])
