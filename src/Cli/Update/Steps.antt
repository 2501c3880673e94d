-- ===== src/Cli/Update/Steps.antt =====
-- `wts update` runs its commands in order and stops at the first that fails.
use whatsapp_bot.Targets.{trim}
use whatsapp_bot.Domain.Errors.{Error, plain}
use whatsapp_bot.Cli.Update.{
  Runner, Invocation, ended_well, run_step, run_steps, check_clean, run_command, status_call,
}
use whatsapp_bot.Db.Exec.{ok, err, Result, Exec, continue, ◌>>=◌}
use whatsapp_bot.Base.{
  [], true, false, ◌∷◌, List, Bool, ◌≡◌, ◌++◌, ◌⊎◌, ◌&&◌, not, ◌||◌, is_empty, refl, inl, inr, All,
  ◌∙◌, Bool-cases, sym, Text,
}
use mathlib.Core.List.{append-nil, append_assoc}

-- A command has succeeded; the one whose output is captured must print nothing.
abbrev pub passes : Runner → List Invocation → Invocation → Bool
passes runner ran call =
    ended_well (runner ran call) && (not call.capture || is_empty (trim (runner ran call).stdout))

-- Every one of these commands succeeds, run one after another.
abbrev pub AllPass : Runner → List Invocation → List Invocation → Type 0
AllPass runner ran [] = Unit
AllPass runner ran (call ∷ calls) =
    (passes runner ran call ≡ true) × AllPass runner (ran ++ call ∷ []) calls

-- All of the plan has run, and the call returns.
pub record Completed {A : Type 0} (runner : Runner) (plan before : List Invocation)
    (ended : Result A × List Invocation) : Type 0 where
  pub returned : A
  pub result : ended.0 ≡ ok returned
  pub ran : ended.1 ≡ before ++ plan
  pub passed : AllPass runner before plan

-- The plan has run up to a first command that failed, and the call throws.
pub record Stopped {A : Type 0} (runner : Runner) (plan before : List Invocation)
    (ended : Result A × List Invocation) : Type 0 where
  pub done : List Invocation
  pub failing : Invocation
  pub left : List Invocation
  pub error : Error
  pub result : ended.0 ≡ err error
  pub split : plan ≡ done ++ failing ∷ left
  pub passed : AllPass runner before done
  pub failed : passes runner (before ++ done) failing ≡ false
  pub ran : ended.1 ≡ before ++ (done ++ failing ∷ [])

abbrev pub FollowsPlan :
    {A : Type 0} → Runner → List Invocation → List Invocation → Result A × List Invocation → Type 0
FollowsPlan runner plan before ended =
    Completed runner plan before ended ⊎ Stopped runner plan before ended

AllPass-append :
    (runner : Runner) (before plan more : List Invocation)
    → AllPass runner before plan
    → AllPass runner (before ++ plan) more
    → AllPass runner before (plan ++ more)
AllPass-append runner before [] more h k = rw (append-nil before) at k
AllPass-append runner before (call ∷ plan) more h k = (
  h.0,
  AllPass-append runner (before ++ call ∷ []) plan more h.1
      (rw (append_assoc before (call ∷ []) plan) k),
)

module _ {A B : Type 0} (runner : Runner) (before plan more : List Invocation)
    (f : A → Exec (List Invocation) B) where
  -- After a plan that has run, the rest follows its own plan.
  rest_after_plan :
      (r : Result A) (t : List Invocation)
      → Completed runner plan before (r, t)
      → ((a : A) → FollowsPlan runner more (before ++ plan) (f a (before ++ plan)))
      → FollowsPlan runner (plan ++ more) before (continue r f t)
  rest_after_plan r t c k =
      rw (c.result, c.ran)
        (elim (k c.returned) [
          | inl rest ↦ inl (record {
            returned = rest.returned;
            result = rest.result;
            ran = rest.ran ∙ append_assoc before plan more;
            passed = AllPass-append runner before plan more c.passed rest.passed;
          })
          | inr rest ↦ inr (record {
            done = plan ++ rest.done;
            failing = rest.failing;
            left = rest.left;
            error = rest.error;
            result = rest.result;
            split = rw (append_assoc plan rest.done (rest.failing ∷ rest.left), rest.split);
            passed = AllPass-append runner before plan rest.done c.passed rest.passed;
            failed = rw (append_assoc before plan rest.done) at rest.failed;
            ran =
                rest.ran
                ∙ (rw (
                  append_assoc before plan (rest.done ++ rest.failing ∷ []),
                  append_assoc plan rest.done (rest.failing ∷ []),
                ));
          })
        ])

  rest_after_stop :
      (r : Result A) (t : List Invocation)
      → Stopped runner plan before (r, t)
      → FollowsPlan runner (plan ++ more) before (continue r f t)
  rest_after_stop r t c = rw c.result (
      inr (record {
        done = c.done;
        failing = c.failing;
        left = c.left ++ more;
        error = c.error;
        result = refl;
        split = rw (c.split, append_assoc c.done (c.failing ∷ c.left) more);
        passed = c.passed;
        failed = c.failed;
        ran = c.ran;
      }))

  pub then_follows :
      (m : Exec (List Invocation) A)
      → FollowsPlan runner plan before (m before)
      → ((a : A) → FollowsPlan runner more (before ++ plan) (f a (before ++ plan)))
      → FollowsPlan runner (plan ++ more) before ((m >>= f) before)
  unfolding ◌>>=◌
  then_follows m h k = elim h [
    | inl c ↦ rest_after_plan (m before).0 (m before).1 c k
    | inr c ↦ rest_after_stop (m before).0 (m before).1 c
  ]

module _ (runner : Runner) where
  completed_now :
      (call : Invocation) (before : List Invocation) (ended : Result (Unit {0}) × List Invocation)
      → passes runner before call ≡ true
      → ended ≡ (ok tt, before ++ call ∷ [])
      → FollowsPlan runner (call ∷ []) before ended
  completed_now call before ended h e =
      inl (record { returned = tt; result = rw e; ran = rw e; passed = (h, tt) })

  stopped_now :
      (call : Invocation) (before : List Invocation) (error : Error)
      (ended : Result (Unit {0}) × List Invocation)
      → passes runner before call ≡ false
      → ended ≡ (err error, before ++ call ∷ [])
      → FollowsPlan runner (call ∷ []) before ended
  stopped_now call before error ended h e = inr (record {
    done = [];
    failing = call;
    left = [];
    error = error;
    result = rw e;
    split = refl;
    passed = tt;
    failed = rw (append-nil before) h;
    ran = rw e;
  })

  pub run_step_follows :
      (call : Invocation) (before : List Invocation)
      → call.capture ≡ false
      → FollowsPlan runner (call ∷ []) before (run_step runner call before)
  unfolding run_step run_command ◌>>=◌
  run_step_follows call before plain_call = elim (Bool-cases (ended_well (runner before call))) [
    | inl e ↦ completed_now call before _ (rw (e, plain_call)) (rw e)
    | inr e ↦ stopped_now call before (plain "A step of the update failed") _ (rw e) (rw e)
  ]

  pub run_steps_follows :
      (calls before : List Invocation)
      → All (λ call. call.capture ≡ false) calls
      → FollowsPlan runner calls before (run_steps runner calls before)
  unfolding run_steps
  run_steps_follows [] before h =
      inl (record { returned = tt; result = refl; ran = sym (append-nil before); passed = tt })
  run_steps_follows (call ∷ calls) before h =
      then_follows runner before (call ∷ []) calls _ (run_step runner call)
        (run_step_follows call before h.0) (λ _. run_steps_follows calls (before ++ call ∷ []) h.1)

  pub check_clean_follows :
      (dir : Text) (before : List Invocation)
      → FollowsPlan runner (status_call dir ∷ []) before (check_clean runner dir before)
  unfolding check_clean run_command ◌>>=◌
  check_clean_follows dir before =
      let call = status_call dir in
      elim (Bool-cases (ended_well (runner before call))) [
        | inr e ↦
            stopped_now call before (plain "Unable to inspect the source checkout") _ (rw e) (rw e)
        | inl e ↦ elim (Bool-cases (is_empty (trim (runner before call).stdout))) [
          | inl f ↦ completed_now call before _ (rw (e, f)) (rw (e, f))
          | inr f ↦
              stopped_now call before (plain "The source checkout has local changes") _ (rw (e, f))
                (rw (e, f))
        ]
      ]
