-- ===== src/Cli/Update/Order.antt =====
-- The commands that `wts update` runs, as a plan.
use whatsapp_bot.Cli.Update.Plan.{update_plan, deploy_plan, is_checkout, is_ready, is_superuser}
use mathlib.Core.List.{append-nil}
use whatsapp_bot.Db.Exec.{ok, err, ◌>>=◌, throw_if, or_throw, Result, Exec, ◌>>◌, pure}
use whatsapp_bot.Domain.Errors.{Error, plain}
use whatsapp_bot.Cli.Update.Steps.{
  FollowsPlan, then_follows, run_steps_follows, check_clean_follows, run_step_follows,
}
use whatsapp_bot.Cli.Update.{
  UpdateHost, pull, Runner, Invocation, deploy_calls, status_call, pull_call, run_steps,
  validate_source, update_from, run_update, run_step, UpdateOptions, check_clean, configured_source,
  is_root, upgrade_path, is_expected,
}
use whatsapp_bot.Base.{
  refl, [], true, false, inl, ◌∷◌, Bool, Text, List, ◌≡◌, All, some, inr, sym, ◌⊎◌, ◌++◌,
  Bool-cases, not, text, ◌||◌, none, Option, ◌∙◌, ◌&&◌, arith, is_some,
}

deploy_calls-eq-plan :
    (host : UpdateHost) (dir : Text) → deploy_calls host dir ≡ deploy_plan host dir
unfolding deploy_calls
deploy_calls-eq-plan host dir = refl

pull_follows :
    (runner : Runner) (dir : Text)
    → FollowsPlan runner (status_call dir ∷ pull_call dir ∷ []) [] (pull runner dir false [])
unfolding pull
pull_follows runner dir =
    then_follows runner [] (status_call dir ∷ []) (pull_call dir ∷ [])
      (λ _. run_step runner (pull_call dir)) (check_clean runner dir)
      (check_clean_follows runner dir [])
      (λ _. run_step_follows runner (pull_call dir) (status_call dir ∷ []) refl)

-- The end of the block returns the directory.
returned_follows :
    {A B : Type 0} (runner : Runner) (plan before : List Invocation) (m : Exec (List Invocation) A)
    (b : B)
    → FollowsPlan runner plan before (m before)
    → FollowsPlan runner plan before ((do m; pure b) before)
returned_follows runner plan before m b h = rw (← append-nil plan) (
    then_follows runner before plan [] (λ _. pure b) m h
      (λ _. inl (record {
        returned = b;
        result = refl;
        ran = sym (append-nil (before ++ plan));
        passed = tt;
      })))

no_capture :
    (host : UpdateHost) (dir : Text) → All (λ call. call.capture ≡ false) (deploy_calls host dir)
unfolding deploy_calls
no_capture host dir = (refl, (refl, (refl, (refl, (refl, (refl, tt))))))

deployed :
    (host : UpdateHost) (runner : Runner) (dir : Text) (before : List Invocation)
    → FollowsPlan runner
        (deploy_calls host dir)
        before
        ((do run_steps runner (deploy_calls host dir); pure dir) before)
deployed host runner dir before =
    returned_follows runner (deploy_calls host dir) before
      (run_steps runner (deploy_calls host dir)) dir
      (run_steps_follows runner (deploy_calls host dir) before (no_capture host dir))

pulled :
    (host : UpdateHost) (runner : Runner) (dir : Text) (skip : Bool)
    → FollowsPlan runner
        (update_plan host skip dir)
        []
        ((do pull runner dir skip; run_steps runner (deploy_calls host dir); pure dir) [])
unfolding pull ◌>>=◌
pulled host runner dir true = rw (← deploy_calls-eq-plan host dir) (deployed host runner dir [])
pulled host runner dir false = rw (← deploy_calls-eq-plan host dir) (
    then_follows runner [] (status_call dir ∷ pull_call dir ∷ []) (deploy_calls host dir)
      (λ _. do run_steps runner (deploy_calls host dir); pure dir) (pull runner dir false)
      (pull_follows runner dir) (λ _. deployed host runner dir _))

-- Nothing has run, and the command throws.
abbrev pub Refused : {A : Type 0} → Result A × List Invocation → Type 0
Refused ended = (error : Error) × (ended ≡ (err error, []))

validate_source_ends :
    (host : UpdateHost) (dir : Text)
    → (Refused (validate_source host dir []) × (is_checkout host dir ≡ false))
      ⊎ ((validate_source host dir [] ≡ (ok tt, [])) × (is_checkout host dir ≡ true))
unfolding validate_source ◌>>=◌
validate_source_ends host dir =
    elim (Bool-cases (
      not (host.exists (host.resolve dir (text "package.json" ∷ [])))
      || not (host.exists (upgrade_path host dir)))) [
        | inl e ↦ inl ((plain "Invalid source checkout", rw e), ground arith)
        | inr e ↦
            elim (Bool-cases
              (is_expected (host.manifest_name (host.resolve dir (text "package.json" ∷ []))))) [
                | inl f ↦ inr (rw (e, f), ground arith)
                | inr f ↦
                    inl ((plain "Unexpected package in source checkout", rw (e, f)), ground arith)
              ]
      ]

update_from_follows :
    (host : UpdateHost) (runner : Runner) (skip : Bool) (dir : Text)
    → (Refused (update_from host runner skip dir []) × (is_checkout host dir ≡ false))
      ⊎ (FollowsPlan runner (update_plan host skip dir) [] (update_from host runner skip dir [])
          × (is_checkout host dir ≡ true))
unfolding update_from ◌>>=◌
update_from_follows host runner skip dir = elim (validate_source_ends host dir) [
  | inl ((error, e), k) ↦ inl ((error, rw e), k)
  | inr (e, k) ↦ inr (rw e (pulled host runner dir skip), k)
]

-- The three checks, for what they find.
checks_end :
    (linux root : Bool) (source : Option Text) (f : Text → Exec (List Invocation) Text)
    → let ended =
        (do
          throw_if (not linux) (plain "wts update is supported only on Linux")
          throw_if (not root) (plain "Run the update as root: sudo wts update")
          given ← or_throw source (plain "No source checkout is configured")
          f given)
          [] in
      (Refused ended × ((linux && (root && is_some source)) ≡ false))
      ⊎ ((given : Text) × (source ≡ some given) × (ended ≡ f given []) × ((linux && root) ≡ true))
unfolding ◌>>=◌
checks_end false root source f = inl ((_, refl), refl)
checks_end true false source f = inl ((_, refl), refl)
checks_end true true none f = inl ((_, refl), refl)
checks_end true true (some given) f = inr (given, refl, refl, refl)

not_ready :
    (host : UpdateHost) (source : Option Text)
    → (host.is_linux && (is_superuser host.uid && is_some source)) ≡ false
    → is_ready host source ≡ false
not_ready host none h = refl
not_ready host (some source) h = ground arith

-- `wts update` throws before it runs anything exactly when it is not ready: no Linux, no root, no
-- checkout configured, or one without its manifest, its name or its script. Otherwise it follows
-- its plan: `git status` and `git pull`, unless they are skipped, then `npm ci`, typecheck, lint,
-- tests, build and last `upgrade.sh`. Either every command has run and succeeded and the update
-- returns, or it throws and the commands that ran are those up to the first that failed.
pub run_update_follows :
    (host : UpdateHost) (runner : Runner) (options : UpdateOptions)
    → (Refused (run_update host runner options [])
        × (is_ready host (configured_source host options) ≡ false))
      ⊎ ((source : Text) × (configured_source host options ≡ some source)
          × (is_ready host (some source) ≡ true)
          × FollowsPlan runner
              (update_plan host options.skip_pull (host.resolve source []))
              []
              (run_update host runner options []))
unfolding run_update
run_update_follows host runner options =
    elim (checks_end host.is_linux (is_root host.uid) (configured_source host options)
      (λ source. update_from host runner options.skip_pull (host.resolve source []))) [
        | inl (refused, k) ↦ inl (refused, not_ready host (configured_source host options) k)
        | inr (source, g, e, k) ↦
            elim (update_from_follows host runner options.skip_pull (host.resolve source [])) [
              | inl ((error, f), c) ↦ inl ((error, e ∙ f), rw g (ground arith))
              | inr (follows, c) ↦ inr (source, g, ground arith, rw e follows)
            ]
      ]
