-- ===== src/Domain/Jobs/Graph.antt =====
-- The transition table of src/domain/jobs.ts read as a graph.
use whatsapp_bot.Base.{◌≡◌, refl, true, ◌⊎◌, arith}
use whatsapp_bot.Domain.Jobs.{JobStatus, sent, cancelled, dry_run, may_become}

-- One move along the table.
infix 40 ◌⟶◌ ◌⟶*◌
abbrev pub ◌⟶◌ : JobStatus → JobStatus → Type 0
s ⟶ t = may_become s t ≡ true

-- Any number of moves.
pub data ◌⟶*◌ (s : JobStatus) : JobStatus → Type 0 where
  here : s ⟶* s
  then : {t u : JobStatus} → s ⟶* t → t ⟶ u → s ⟶* u

pub ⟶*-trans : {s t u : JobStatus} → s ⟶* t → t ⟶* u → s ⟶* u
⟶*-trans p here = p
⟶*-trans p (then q m) = then (⟶*-trans p q) m

pub ⟶-⟶* : {s t : JobStatus} → s ⟶ t → s ⟶* t
⟶-⟶* m = then here m

-- A status with no way out.
abbrev pub IsTerminal : JobStatus → Type 0
IsTerminal s = (s ≡ sent) ⊎ ((s ≡ cancelled) ⊎ (s ≡ dry_run))

terminal_step : (s t : JobStatus) → IsTerminal s → may_become s t ≡ true → t ≡ s
unfolding may_become
terminal_step s t h m = ground arith

pub terminal_absorbs : {s t : JobStatus} → IsTerminal s → s ⟶* t → t ≡ s
terminal_absorbs h here = refl
terminal_absorbs {s} h (then {t = t} {u = u} p m) =
    ground (arith, terminal_absorbs h p, terminal_step t u)
