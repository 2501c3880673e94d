-- ===== src/Targets/Snapshot.antt =====
-- `snapshotAllowed` of src/whatsapp/target-resolver.ts.
use whatsapp_bot.Base.{
  ℕ, List, Option, Bool, ◌≡◌, ◌&&◌, ◌||◌, not, map, map_option, ◌≤◌, ap, ◌∙◌, refl, [], some, true,
  false, ◌∷◌, length, select, All, ◌+◌, ◌-◌, count_if, sort_rows, arith, length-sort_rows,
  All-select, All-sort_rows, length-select, count_if-le-length,
}
use whatsapp_bot.Db.{Db}
use whatsapp_bot.Domain.Groups.{Destination}
use whatsapp_bot.Targets.{JidCodec, resolve_targets, Targets}
use whatsapp_bot.Targets.Distinct.{IsTarget, is_given, resolve_targets_tallies}
use whatsapp_bot.Destinations.Listing.{list_destinations, listed_before}

pub record AllowedSnapshot : Type 0 where
  pub destinations : List Destination
  pub requested : ℕ
  pub skipped : ℕ
  pub duplicates : ℕ

abbrev pub is_eligible_group : Destination → Bool
is_eligible_group d = d.enabled && d.can_send

unfoldable pub snapshot_of : List Destination → List Destination → Targets → AllowedSnapshot
snapshot_of known eligible t = record {
  destinations = t.resolved;
  requested = length known;
  skipped = length known - length eligible + length t.issues;
  duplicates = t.duplicates;
}

unfoldable pub snapshot_allowed : JidCodec → Db → Option AllowedSnapshot
snapshot_allowed codec db =
    let known = list_destinations false db in
    let eligible = select is_eligible_group known in
    map_option (snapshot_of known eligible)
      (resolve_targets codec true db (map (λ d. d.jid) eligible))

-- What a snapshot promises of the destinations it was taken of.
pub record IsSnapshot (codec : JidCodec) (total : ℕ) (s : AllowedSnapshot) : Type 0 where
  pub targets : All (IsTarget codec true) s.destinations
  pub requested : s.requested ≡ total
  pub accounted : length s.destinations + s.skipped + s.duplicates ≡ total

every_jid_given :
    (ds : List Destination)
    → All (λ d. is_given d.jid ≡ true) ds
    → count_if is_given (map (λ d. d.jid) ds) ≡ length ds
every_jid_given [] h = refl
every_jid_given (d ∷ ds) h = rw (h.0, every_jid_given ds h.1)

all_listed : (known : List Destination) → select (λ d. not false || d.enabled) known ≡ known
all_listed [] = refl
all_listed (d ∷ ds) = rw (all_listed ds)

accounts :
    (known eligible resolved issues duplicates : ℕ)
    → eligible ≤ known
    → resolved + issues + duplicates ≡ eligible
    → resolved + (known - eligible + issues) + duplicates ≡ known
accounts known eligible resolved issues duplicates h e = omega arith

-- When no jid is blank, the snapshot succeeds, its targets are allowed groups, and targets, skipped
-- and duplicates add up to the number of destinations, which it reports as requested.
pub snapshot_allowed_accounts :
    (codec : JidCodec) (db : Db)
    → All (λ d. is_given d.jid ≡ true) db.destinations
    → (s : AllowedSnapshot) × (snapshot_allowed codec db ≡ some s)
      × IsSnapshot codec (length db.destinations) s
unfolding snapshot_allowed snapshot_of list_destinations
snapshot_allowed_accounts codec db given =
    let known = sort_rows listed_before (select (λ d. not false || d.enabled) db.destinations) in
    let eligible = select is_eligible_group known in
    let (result, e, tally) = resolve_targets_tallies codec true db (map (λ d. d.jid) eligible) in
    let total : length known ≡ length db.destinations =
      length-sort_rows listed_before _ ∙ ap length (all_listed db.destinations) in
    let given_eligible : All (λ d. is_given d.jid ≡ true) eligible =
      All-select _ listed_before is_eligible_group known (
        All-sort_rows _ listed_before _
          (All-select _ listed_before (λ d. not false || d.enabled) db.destinations given)) in
    let counted : length result.resolved + length result.issues + result.duplicates
        ≡ length eligible =
      tally.counted ∙ every_jid_given eligible given_eligible in
    let fewer : length eligible ≤ length known =
      rw (length-select is_eligible_group known) (count_if-le-length is_eligible_group known) in
    (
      snapshot_of known eligible result,
      rw e refl,
      record {
        targets = tally.targets;
        requested = total;
        accounted =
            accounts (length known) (length eligible) (length result.resolved)
              (length result.issues) result.duplicates fewer counted
            ∙ total;
      },
    )
