-- ===== src/Cli/Update/Plan.antt =====
-- What `wts update` is to run, in order, and what it asks for first.
use whatsapp_bot.Cli.Update.{UpdateHost, Invocation}
use whatsapp_bot.Base.{
  [], true, false, ◌∷◌, Bool, Text, List, some, text, none, Option, ◌&&◌, text_eq, ℕ, ◌==◌,
}

-- A command in the checkout; only the output of the inspection is captured.
abbrev in_checkout : Text → Bool → Text → List Text → Invocation
in_checkout dir captured program words = record {
  capture = captured;
  cwd = dir;
  args = words;
  command = program;
}

-- `npm ci`, `npm run typecheck`, `npm run lint`, `npm test`, `npm run build` and the upgrade script.
abbrev pub deploy_plan : UpdateHost → Text → List Invocation
deploy_plan host dir =
    in_checkout dir false (text "npm") (text "ci" ∷ [])
    ∷ in_checkout dir false (text "npm") (text "run" ∷ text "typecheck" ∷ [])
    ∷ in_checkout dir false (text "npm") (text "run" ∷ text "lint" ∷ [])
    ∷ in_checkout dir false (text "npm") (text "test" ∷ [])
    ∷ in_checkout dir false (text "npm") (text "run" ∷ text "build" ∷ [])
    ∷ in_checkout dir false (text "bash")
        (host.resolve dir (text "scripts" ∷ text "upgrade.sh" ∷ []) ∷ [])
    ∷ []

-- `git status --porcelain` and `git pull --ff-only` before them, unless the pull is skipped.
abbrev pub update_plan : UpdateHost → Bool → Text → List Invocation
update_plan host true dir = deploy_plan host dir
update_plan host false dir =
    in_checkout dir true (text "git") (text "status" ∷ text "--porcelain" ∷ [])
    ∷ in_checkout dir false (text "git") (text "pull" ∷ text "--ff-only" ∷ [])
    ∷ deploy_plan host dir

-- The manifest names this program; one that is no JSON or has no name does not.
abbrev pub names_program : Option (Option Text) → Bool
names_program none = false
names_program (some none) = false
names_program (some (some name)) = text_eq name (text "sajadbot-whatsapp")

-- The user is the one of number 0.
abbrev pub is_superuser : Option ℕ → Bool
is_superuser none = false
is_superuser (some uid) = uid == 0

-- The checkout has its manifest and its script, and the manifest names this program.
abbrev pub is_checkout : UpdateHost → Text → Bool
is_checkout host dir =
    host.exists (host.resolve dir (text "package.json" ∷ []))
    && (host.exists (host.resolve dir (text "scripts" ∷ text "upgrade.sh" ∷ []))
        && names_program (host.manifest_name (host.resolve dir (text "package.json" ∷ []))))

-- What `wts update` asks for before it runs anything: Linux, the user root, and a checkout.
abbrev pub is_ready : UpdateHost → Option Text → Bool
is_ready host none = false
is_ready host (some source) =
    host.is_linux && (is_superuser host.uid && is_checkout host (host.resolve source []))
