-- ===== src/Targets.antt =====
-- src/whatsapp/jid.ts and src/whatsapp/target-resolver.ts: the groups that a list of inputs names.
pub mod Distinct
pub mod Snapshot
use whatsapp_bot.Domain.Groups.{Destination}
use whatsapp_bot.Db.{Db}
use whatsapp_bot.Base.{
  [], none, some, false, inl, inr, suc, ◌∷◌, Text, ℕ, List, Option, Bool, leb, if◌then◌else◌,
  reverse, any, text, text_eq, ◌⊎◌, ◌&&◌, ◌==◌, ◌||◌, not, ◌++◌, map,
}
use whatsapp_bot.Destinations.{resolve, fold_case}

-- `jidDecode` and `jidEncode` of Baileys.
pub record JidCodec : Type 0 where
  pub decode : Text → Option (Text × Text)
  pub encode : Text → Text → Text

-- The white space that `trim` removes.
abbrev pub is_space : ℕ → Bool
is_space c =
    (leb 9 c && leb c 13)
    || any (λ s. s == c) (32 ∷ 160 ∷ 5760 ∷ 8232 ∷ 8233 ∷ 8239 ∷ 8287 ∷ 12288 ∷ 65279 ∷ [])
    || (leb 8192 c && leb c 8202)

unfoldable pub trim_start : Text → Text
trim_start [] = []
trim_start (c ∷ cs) = if is_space c then trim_start cs else c ∷ cs

unfoldable pub trim : Text → Text
trim s = reverse (trim_start (reverse (trim_start s)))

-- `toLowerCase` for tests against ASCII: outside ASCII only the Kelvin sign, 8490, has a lower case
-- in it that stands alone.
unfoldable pub lower_case : Text → Text
lower_case s = fold_case (map (λ c. if c == 8490 then 107 else c) s)

-- `includes` of one code unit.
abbrev pub contains : ℕ → Text → Bool
contains c = any λ d. d == c

abbrev pub allowed_servers : List Text
allowed_servers =
    text "s.whatsapp.net" ∷ text "g.us" ∷ text "lid" ∷ text "broadcast" ∷ text "newsletter" ∷ []

unfoldable pub is_allowed_server : Text → Bool
is_allowed_server server = any (text_eq (lower_case server)) allowed_servers || contains 46 server

unfoldable pub canonical_jid : JidCodec → Option (Text × Text) → Option Text
canonical_jid codec none = none
canonical_jid codec (some ([], server)) = none
canonical_jid codec (some (c ∷ user, [])) = none
canonical_jid codec (some (c ∷ user, d ∷ server)) =
    if is_allowed_server (d ∷ server) then some (codec.encode (c ∷ user) (d ∷ server)) else none

-- A throw is `none`.
unfoldable pub normalize_jid : JidCodec → Text → Option Text
normalize_jid codec value = canonical_jid codec (codec.decode (trim value))

abbrev pub server_is : Text → Option (Text × Text) → Bool
server_is name none = false
server_is name (some (user, server)) = text_eq server name

abbrev pub decodes_to : JidCodec → Text → Option Text → Bool
decodes_to codec name none = false
decodes_to codec name (some jid) = server_is name (codec.decode jid)

unfoldable pub is_group_jid : JidCodec → Text → Bool
is_group_jid codec value = decodes_to codec (text "g.us") (normalize_jid codec value)

unfoldable pub is_user_jid : JidCodec → Text → Bool
is_user_jid codec value =
    decodes_to codec (text "s.whatsapp.net") (normalize_jid codec value)
    || decodes_to codec (text "lid") (normalize_jid codec value)

pub data TargetIssueReason : Type 0 where
  not_found invalid_jid not_a_group disabled not_sendable : TargetIssueReason

pub record TargetIssue : Type 0 where
  pub input : Text
  pub reason : TargetIssueReason

-- The variables of the loop; `seen` holds the canonical jids of `resolved`.
pub record Targets : Type 0 where
  pub resolved : List Destination
  pub issues : List TargetIssue
  pub seen : List Text
  pub duplicates : ℕ

unfoldable pub by_jid : JidCodec → Db → Option Text → TargetIssueReason ⊎ Option Destination
by_jid codec db none = inl invalid_jid
by_jid codec db (some jid) =
    if is_group_jid codec jid then inr (resolve jid db) else inl not_a_group

unfoldable pub look_up : JidCodec → Db → Text → TargetIssueReason ⊎ Option Destination
look_up codec db input =
    if contains 64 input
    then by_jid codec db (normalize_jid codec input)
    else inr (resolve input db)

unfoldable pub check_found : JidCodec → Bool → Destination → TargetIssueReason ⊎ Destination
check_found codec require_allowed d =
    if not (is_group_jid codec d.jid)
    then inl not_a_group
    else if require_allowed && not d.enabled
    then inl disabled
    else if require_allowed && not d.can_send
    then inl not_sendable
    else inr d

unfoldable pub check_target :
    JidCodec → Bool → TargetIssueReason ⊎ Option Destination → TargetIssueReason ⊎ Destination
check_target codec require_allowed (inl reason) = inl reason
check_target codec require_allowed (inr none) = inl not_found
check_target codec require_allowed (inr (some d)) = check_found codec require_allowed d

-- The end of an iteration: `normalizeJid(destination.jid)` may throw.
unfoldable pub add_target : Destination → Option Text → Targets → Option Targets
add_target d none t = none
add_target d (some jid) t =
    if any (λ s. text_eq s jid) t.seen
    then some (record t { duplicates = suc t.duplicates })
    else some (record t { seen = t.seen ++ jid ∷ []; resolved = t.resolved ++ d ∷ [] })

unfoldable pub note_target :
    JidCodec → Text → TargetIssueReason ⊎ Destination → Targets → Option Targets
note_target codec input (inl reason) t =
    some (record t { issues = t.issues ++ record { input = input; reason = reason } ∷ [] })
note_target codec input (inr d) t = add_target d (normalize_jid codec d.jid) t

unfoldable pub visit_input : JidCodec → Bool → Db → Text → Targets → Option Targets
visit_input codec require_allowed db [] t = some t
visit_input codec require_allowed db (c ∷ cs) t =
    note_target codec (c ∷ cs) (check_target codec require_allowed (look_up codec db (c ∷ cs))) t

abbrev pub and_then : {A B : Type 0} → Option A → (A → Option B) → Option B
and_then none f = none
and_then (some a) f = f a

unfoldable pub visit_all : JidCodec → Bool → Db → List Text → Targets → Option Targets
visit_all codec require_allowed db [] t = some t
visit_all codec require_allowed db (raw ∷ raws) t =
    and_then (visit_input codec require_allowed db (trim raw) t)
      (visit_all codec require_allowed db raws)

unfoldable pub resolve_targets : JidCodec → Bool → Db → List Text → Option Targets
resolve_targets codec require_allowed db inputs =
    visit_all codec require_allowed db inputs
      (record { resolved = []; issues = []; seen = []; duplicates = 0 })

abbrev same_text : Option Text → Option Text → Bool
same_text (some s) (some t) = text_eq s t
same_text _ _ = false

-- `sameJid`; the callers pass no missing value.
unfoldable pub same_jid : JidCodec → Text → Text → Bool
same_jid codec [] right = false
same_jid codec (c ∷ left) [] = false
same_jid codec (c ∷ left) (d ∷ right) =
    same_text (normalize_jid codec (c ∷ left)) (normalize_jid codec (d ∷ right))
