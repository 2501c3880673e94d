-- ===== src/Base/Strings.antt =====
-- JavaScript strings as lists of UTF-16 code units, and the decimal print of a number.
use Prim.Native.Nat.{ℕ, zero, suc, ◌+◌, ◌/◌, ◌%◌}
use Prim.Native.Char.{code}
use Prim.Native.String.{String}
use mathlib.Core.Path.{◌≡◌, refl, ap₂}
use mathlib.Core.Bool.{Bool, true, false, ◌&&◌}
use mathlib.Core.List.{List, [], ◌∷◌}
use native.Mathlib.Omega.{arith}
use whatsapp_bot.Base.Tests.{◌==◌, ltb, if◌then◌else◌, ==_iff, &&-both}

abbrev pub Text : Type 0
Text = List ℕ

-- A literal of the basic multilingual plane, unit by unit.
unfoldable pub text : String → Text
text String.[] = []
text (String.◌∷◌ c s) = code c ∷ text s

abbrev pub is_empty : Text → Bool
is_empty [] = true
is_empty (c ∷ cs) = false

unfoldable pub text_eq : Text → Text → Bool
text_eq [] [] = true
text_eq [] (_ ∷ _) = false
text_eq (_ ∷ _) [] = false
text_eq (x ∷ xs) (y ∷ ys) = x == y && text_eq xs ys

pub text_eq_refl : (t : Text) → text_eq t t ≡ true
unfolding text_eq
text_eq_refl [] = refl
text_eq_refl (x ∷ xs) = ground (arith, text_eq_refl xs)

pub text_eq_sound : (s t : Text) → text_eq s t ≡ true → s ≡ t
unfolding text_eq
text_eq_sound [] [] h = refl
text_eq_sound [] (y ∷ ys) h = cc
text_eq_sound (x ∷ xs) [] h = cc
text_eq_sound (x ∷ xs) (y ∷ ys) h =
    let (p, q) = &&-both (x == y) (text_eq xs ys) h in
    ap₂ ◌∷◌ ((==_iff x y).0 p) (text_eq_sound xs ys q)

decimal_from : ℕ → ℕ → Text → Text
decimal_from zero n acc = acc
decimal_from (suc fuel) n acc =
    let rest = decimal_from fuel (n / 10) ((48 + n % 10) ∷ acc) in
    if ltb n 10 then (48 + n % 10) ∷ acc else rest

-- `CAST(id AS TEXT)`: a number has at most as many decimal digits as its value plus one.
unfoldable pub decimal : ℕ → Text
unfolding decimal_from
decimal n = decimal_from (suc n) n []

pub text_eq_comm : (s t : Text) → text_eq s t ≡ text_eq t s
unfolding text_eq
text_eq_comm [] [] = refl
text_eq_comm [] (y ∷ ys) = refl
text_eq_comm (x ∷ xs) [] = refl
text_eq_comm (x ∷ xs) (y ∷ ys) = ground (arith, text_eq_comm xs ys)

-- The text has the code unit of '-'.
unfoldable pub has_dash : Text → Bool
has_dash [] = false
has_dash (c ∷ cs) = if c == 45 then true else has_dash cs

decimal_from-has_dash :
    (fuel n : ℕ) (acc : Text) → has_dash acc ≡ false → has_dash (decimal_from fuel n acc) ≡ false
unfolding decimal_from has_dash
decimal_from-has_dash zero n acc h = h
decimal_from-has_dash (suc fuel) n acc h =
    ground (arith, decimal_from-has_dash fuel (n / 10) ((48 + n % 10) ∷ acc))

-- A decimal print has no dash.
pub decimal-has_dash : (n : ℕ) → has_dash (decimal n) ≡ false
unfolding decimal has_dash
decimal-has_dash n = decimal_from-has_dash (suc n) n [] refl

pub text_eq-has_dash : (s t : Text) → has_dash s ≡ false → has_dash t ≡ true → text_eq s t ≡ false
unfolding text_eq has_dash
text_eq-has_dash [] [] h d = cc
text_eq-has_dash [] (y ∷ ys) h d = refl
text_eq-has_dash (x ∷ xs) [] h d = refl
text_eq-has_dash (x ∷ xs) (y ∷ ys) h d = ground (arith, text_eq-has_dash xs ys)

decimal_of_120 : decimal 120 ≡ text "120"
unfolding decimal text
decimal_of_120 = refl
