-- ===== src/Destinations/Listing.antt =====
-- `list` of src/db/repositories/destination-repository.ts, in its order.
use whatsapp_bot.Base.{
  ℕ, Text, List, Bool, ◌≡◌, leb, ◌&&◌, ◌||◌, ◌==◌, ltb, not, sym, refl, [], true, false, ◌∷◌,
  if◌then◌else◌, arith, text_eq, sort_rows, count_if, ◌+◌, select, IsOrdered, count_if-sort_rows,
  sort_rows-IsOrdered, text_eq_sound,
}
use mathlib.Core.Bool.{false≢true}
use whatsapp_bot.Db.{Db}
use whatsapp_bot.Domain.Groups.{Destination}
use whatsapp_bot.Destinations.{fold_case}

-- A code unit in the order of code points: the surrogates come after all others.
unfoldable pub order_unit : ℕ → ℕ
order_unit c = if leb 55296 c && leb c 57343 then c + 65536 else c

-- Texts in the binary order of SQLite.
unfoldable pub text_before : Text → Text → Bool
text_before s [] = false
text_before [] (d ∷ t) = true
text_before (c ∷ s) (d ∷ t) =
    ltb (order_unit c) (order_unit d) || order_unit c == order_unit d && text_before s t

pub text_before_asymmetric : (s t : Text) → text_before s t ≡ true → text_before t s ≡ false
unfolding text_before
text_before_asymmetric [] [] h = cc
text_before_asymmetric [] (d ∷ t) h = refl
text_before_asymmetric (c ∷ s) [] h = cc
text_before_asymmetric (c ∷ s) (d ∷ t) h =
    compared (order_unit c) (order_unit d) (text_before s t) (text_before t s)
      (text_before_asymmetric s t) h
  where
    compared :
        (a b : ℕ) (p q : Bool)
        → (p ≡ true → q ≡ false)
        → (ltb a b || a == b && p) ≡ true
        → (ltb b a || b == a && q) ≡ false
    compared a b true true k h = absurd (false≢true (sym (k refl)))
    compared a b true false k h = ground arith
    compared a b false q k h = ground arith

-- `subject COLLATE NOCASE, jid`
unfoldable pub listed_before : Destination → Destination → Bool
listed_before a b =
    text_before (fold_case a.subject) (fold_case b.subject)
    || text_eq (fold_case a.subject) (fold_case b.subject) && text_before a.jid b.jid

unfoldable pub list_destinations : Bool → Db → List Destination
list_destinations enabled_only db =
    sort_rows listed_before (select (λ d. not enabled_only || d.enabled) db.destinations)

text_before_irreflexive : (t : Text) → text_before t t ≡ false
unfolding text_before
text_before_irreflexive [] = refl
text_before_irreflexive (c ∷ t) = ground (arith, text_before_irreflexive t)

equal_before : (s t : Text) → text_eq s t ≡ true → text_before t s ≡ false
equal_before s t e = rw (text_eq_sound s t e) (text_before_irreflexive t)

-- An order by a first key, and by a second one where the first keys are equal.
lexicographic :
    (p q r s u v : Bool)
    → (p ≡ true → q ≡ false)
    → (r ≡ true → q ≡ false)
    → (s ≡ true → p ≡ false)
    → (u ≡ true → v ≡ false)
    → (p || r && u) ≡ true
    → (q || s && v) ≡ false
lexicographic true q r true u v f g j k h = absurd (false≢true (sym (j refl)))
lexicographic true q r false u v f g j k h = rw (f refl)
lexicographic false q true s true v f g j k h = rw (g refl, k refl) (and_false s)
  where
    and_false : (s : Bool) → (s && false) ≡ false
    and_false true = refl
    and_false false = refl
lexicographic false q true s false v f g j k h = cc
lexicographic false q false s u v f g j k h = cc

listed_before_asymmetric :
    (a b : Destination) → listed_before a b ≡ true → listed_before b a ≡ false
unfolding listed_before
listed_before_asymmetric a b h =
    let s = fold_case a.subject in
    let t = fold_case b.subject in
    lexicographic (text_before s t) (text_before t s) (text_eq s t) (text_eq t s)
      (text_before a.jid b.jid) (text_before b.jid a.jid) (text_before_asymmetric s t)
      (equal_before s t) (equal_before t s) (text_before_asymmetric a.jid b.jid) h

-- The list has the destinations, or the enabled ones where that is asked for, each as often as the
-- table, and none directly before one that comes first by subject, case aside, and then by jid.
pub list_destinations_lem :
    (enabled_only : Bool) (db : Db)
    → ((p : Destination → Bool)
        → count_if p (list_destinations enabled_only db)
          ≡ count_if p (select (λ d. not enabled_only || d.enabled) db.destinations))
      × IsOrdered listed_before (list_destinations enabled_only db)
unfolding list_destinations
list_destinations_lem enabled_only db = (
  (λ p. count_if-sort_rows listed_before p _),
  sort_rows-IsOrdered listed_before listed_before_asymmetric _,
)
