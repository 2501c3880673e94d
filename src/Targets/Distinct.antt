-- ===== src/Targets/Distinct.antt =====
-- Every input of src/whatsapp/target-resolver.ts is accounted for, and no group is named twice.
use whatsapp_bot.Db.{Db}
use whatsapp_bot.Jobs.Invariant.{DiffersFrom}
use whatsapp_bot.Domain.Groups.{Destination}
use whatsapp_bot.Targets.{
  JidCodec, is_group_jid, check_found, normalize_jid, Targets, TargetIssueReason, check_target,
  add_target, note_target, trim, visit_input, visit_all, resolve_targets,
}
use mathlib.Core.List.{map-append}
use whatsapp_bot.Base.{
  [], some, true, inl, inr, ◌∷◌, Text, Bool, ◌≡◌, ℕ, not, Option-cases, ◌||◌, All, arith, ◌⊎◌, ◌&&◌,
  map, Pairwise, length, ◌+◌, refl, none, suc, Bool-cases, Option, any, ◌++◌, text_eq,
  length-append, All-append_one, Pairwise-append_one, any-false, if◌then◌else◌, List, count_if,
  subst, is_empty,
}

-- What may be written to: a known group, and one that is allowed where that is required.
pub record IsTarget (codec : JidCodec) (require_allowed : Bool) (d : Destination) : Type 0 where
  pub group : is_group_jid codec d.jid ≡ true
  pub allowed : (not require_allowed || (d.enabled && d.can_send)) ≡ true

-- The state of the loop after a number of inputs that are not blank.
pub record IsTally (codec : JidCodec) (require_allowed : Bool) (count : ℕ) (t : Targets)
    : Type 0 where
  pub targets : All (IsTarget codec require_allowed) t.resolved
  pub canonical : map (λ d. normalize_jid codec d.jid) t.resolved ≡ map some t.seen
  pub distinct : Pairwise DiffersFrom t.seen
  pub counted : length t.resolved + length t.issues + t.duplicates ≡ count

normalizes_of_group :
    (codec : JidCodec) (jid : Text)
    → is_group_jid codec jid ≡ true
    → (canonical : Text) × (normalize_jid codec jid ≡ some canonical)
unfolding is_group_jid
normalizes_of_group codec jid h = elim (Option-cases (normalize_jid codec jid)) [
  | inl e ↦ absurd (ground arith)
  | inr (canonical, e) ↦ (canonical, e)
]

check_found_allows :
    (codec : JidCodec) (require_allowed : Bool) (d e : Destination)
    → check_found codec require_allowed d ≡ inr e
    → IsTarget codec require_allowed e
unfolding check_found
check_found_allows codec require_allowed d e h = record {
  group = ground arith;
  allowed = ground arith;
}

check_target_allows :
    (codec : JidCodec) (require_allowed : Bool) (found : TargetIssueReason ⊎ Option Destination)
    (d : Destination)
    → check_target codec require_allowed found ≡ inr d
    → IsTarget codec require_allowed d
unfolding check_target
check_target_allows codec require_allowed (inl reason) d h = absurd cc
check_target_allows codec require_allowed (inr none) d h = absurd cc
check_target_allows codec require_allowed (inr (some e)) d h =
    check_found_allows codec require_allowed e d h

-- One more input that ends as a target, a duplicate or an issue.
module _ (codec : JidCodec) (require_allowed : Bool) (count : ℕ) (t : Targets) where
  add_target_tallies :
      (d : Destination) (jid : Text)
      → IsTally codec require_allowed count t
      → IsTarget codec require_allowed d
      → normalize_jid codec d.jid ≡ some jid
      → (after : Targets) × (add_target d (some jid) t ≡ some after)
        × IsTally codec require_allowed (suc count) after
  unfolding add_target
  add_target_tallies d jid tally target e = elim (Bool-cases (any (λ s. text_eq s jid) t.seen)) [
    | inl known ↦ (
      record t { duplicates = suc t.duplicates },
      rw known,
      record {
        targets = tally.targets;
        canonical = tally.canonical;
        distinct = tally.distinct;
        counted = omega (arith, tally.counted);
      },
    )
    | inr new ↦ (
      record t { seen = t.seen ++ jid ∷ []; resolved = t.resolved ++ d ∷ [] },
      rw new,
      record {
        targets = All-append_one _ t.resolved tally.targets target;
        canonical = rw (map-append, map-append, tally.canonical, e);
        distinct =
            Pairwise-append_one DiffersFrom t.seen jid tally.distinct (any-false _ t.seen new);
        counted = omega (arith, tally.counted, length-append {0} t.resolved (d ∷ []));
      },
    )
  ]

  note_target_tallies :
      (input : Text) (found : TargetIssueReason ⊎ Destination)
      → IsTally codec require_allowed count t
      → ((d : Destination) → found ≡ inr d → IsTarget codec require_allowed d)
      → (after : Targets) × (note_target codec input found t ≡ some after)
        × IsTally codec require_allowed (suc count) after
  unfolding note_target
  note_target_tallies input (inl reason) tally allows = (
    record t { issues = t.issues ++ record { input = input; reason = reason } ∷ [] },
    refl,
    record {
      targets = tally.targets;
      canonical = tally.canonical;
      distinct = tally.distinct;
      counted = omega (
        arith,
        tally.counted,
        length-append {0} t.issues (record { input = input; reason = reason } ∷ []),
      );
    },
  )
  note_target_tallies input (inr d) tally allows =
      let target = allows d refl in
      let (jid, e) = normalizes_of_group codec d.jid target.group in
      rw e (add_target_tallies d jid tally target e)

-- The inputs that the loop does not skip.
abbrev pub is_given : Text → Bool
is_given raw = not (is_empty (trim raw))

module _ (codec : JidCodec) (require_allowed : Bool) (db : Db) where
  visit_input_tallies :
      (input : Text) (count : ℕ) (t : Targets)
      → IsTally codec require_allowed count t
      → (after : Targets) × (visit_input codec require_allowed db input t ≡ some after)
        × IsTally codec require_allowed (if is_empty input then count else suc count) after
  unfolding visit_input
  visit_input_tallies [] count t tally = (t, refl, tally)
  visit_input_tallies (c ∷ cs) count t tally =
      note_target_tallies codec require_allowed count t (c ∷ cs) _ tally
        (λ d e. check_target_allows codec require_allowed _ d e)

  visit_all_tallies :
      (inputs : List Text) (count : ℕ) (t : Targets)
      → IsTally codec require_allowed count t
      → (after : Targets) × (visit_all codec require_allowed db inputs t ≡ some after)
        × IsTally codec require_allowed (count + count_if is_given inputs) after
  unfolding visit_all
  visit_all_tallies [] count t tally =
      (t, refl, subst (λ n. IsTally codec require_allowed n t) (omega arith) tally)
  visit_all_tallies (raw ∷ raws) count t tally =
      let (middle, e, next) = visit_input_tallies (trim raw) count t tally in
      let (after, f, end) = visit_all_tallies raws _ middle next in
      (after, rw e f, subst (λ n. IsTally codec require_allowed n after) (ground arith) end)

  -- The resolution of targets never throws. Every input that is not blank becomes a target, an
  -- issue or a duplicate. The targets are groups, allowed ones where that is required, and their
  -- canonical jids, in order, are pairwise different.
  pub resolve_targets_tallies :
      (inputs : List Text)
      → (result : Targets) × (resolve_targets codec require_allowed db inputs ≡ some result)
        × IsTally codec require_allowed (count_if is_given inputs) result
  unfolding resolve_targets
  resolve_targets_tallies inputs =
      let (result, e, end) =
        visit_all_tallies inputs 0 _
          (record { targets = tt; canonical = refl; distinct = tt; counted = refl }) in
      (result, e, subst (λ n. IsTally codec require_allowed n result) (omega arith) end)
