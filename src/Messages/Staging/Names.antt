-- ===== src/Messages/Staging/Names.antt =====
-- The names under which files are sent.
use whatsapp_bot.Messages.Staging.{
  replace_unsafe, drop_dots, sanitize_filename, StagerConfig, is_safe_unit, or_attachment,
}
use whatsapp_bot.Base.{
  refl, [], true, false, inl, inr, suc, zero, ◌∷◌, Text, ℕ, text, Bool, All, ◌≡◌, length, ◌==◌,
  Bool-cases, take, ◌≤◌, is_empty, arith,
}

abbrev pub leads_with_dot : Text → Bool
leads_with_dot [] = false
leads_with_dot (c ∷ cs) = c == 46

-- Letters, digits, dots, lines and hyphens, up to 120 and one at least, the first no dot.
pub record IsSafeName (t : Text) : Type 0 where
  pub units : All (λ c. is_safe_unit c ≡ true) t
  pub bounded : length t ≤ 120
  pub given : is_empty t ≡ false
  pub visible : leads_with_dot t ≡ false

replace_unsafe-units :
    (after_unsafe : Bool) (s : Text)
    → All (λ c. is_safe_unit c ≡ true) (replace_unsafe after_unsafe s)
unfolding replace_unsafe
replace_unsafe-units after_unsafe [] = tt
replace_unsafe-units after_unsafe (c ∷ cs) = elim (Bool-cases (is_safe_unit c)) [
  | inl e ↦ rw e (e, replace_unsafe-units false cs)
  | inr e ↦ elim (Bool-cases after_unsafe) [
    | inl f ↦ rw (e, f) (replace_unsafe-units true cs)
    | inr f ↦ rw (e, f) (refl, replace_unsafe-units true cs)
  ]
]

drop_dots-units :
    (s : Text) → All (λ c. is_safe_unit c ≡ true) s → All (λ c. is_safe_unit c ≡ true) (drop_dots s)
unfolding drop_dots
drop_dots-units [] h = tt
drop_dots-units (c ∷ cs) h = elim (Bool-cases (c == 46)) [
  | inl e ↦ rw e (drop_dots-units cs h.1)
  | inr e ↦ rw e h
]

drop_dots-visible : (s : Text) → leads_with_dot (drop_dots s) ≡ false
unfolding drop_dots
drop_dots-visible [] = refl
drop_dots-visible (c ∷ cs) = elim (Bool-cases (c == 46)) [
  | inl e ↦ rw e (drop_dots-visible cs)
  | inr e ↦ rw e e
]

take-units :
    (n : ℕ) (s : Text)
    → All (λ c. is_safe_unit c ≡ true) s
    → All (λ c. is_safe_unit c ≡ true) (take n s)
take-units zero s h = tt
take-units (suc n) [] h = tt
take-units (suc n) (c ∷ cs) h = (h.0, take-units n cs h.1)

length-take : (n : ℕ) (s : Text) → length (take n s) ≤ n
length-take zero s = omega arith
length-take (suc n) [] = omega arith
length-take (suc n) (c ∷ cs) = omega (arith, length-take n cs)

take-visible : (n : ℕ) (s : Text) → leads_with_dot s ≡ false → leads_with_dot (take n s) ≡ false
take-visible zero s h = refl
take-visible (suc n) [] h = refl
take-visible (suc n) (c ∷ cs) h = h

or_attachment-IsSafeName :
    (s : Text)
    → All (λ c. is_safe_unit c ≡ true) s
    → length s ≤ 120
    → leads_with_dot s ≡ false
    → IsSafeName (or_attachment s)
unfolding text
or_attachment-IsSafeName [] units bounded visible = record {
  units = ground arith;
  bounded = omega arith;
  given = refl;
  visible = refl;
}
or_attachment-IsSafeName (c ∷ cs) units bounded visible = record {
  units = units;
  bounded = bounded;
  given = refl;
  visible = visible;
}

-- Whatever name is asked for, and whatever `basename` and the normalisation make of it, the file is
-- named by letters, digits, dots, lines and hyphens of ASCII only, up to 120 and one at least, and
-- the first is no dot.
pub sanitize_filename-IsSafeName :
    (cfg : StagerConfig) (value : Text) → IsSafeName (sanitize_filename cfg value)
unfolding sanitize_filename
sanitize_filename-IsSafeName cfg value =
    let replaced = replace_unsafe false (cfg.normalize_nfkc (cfg.basename value)) in
    let shown = drop_dots replaced in
    or_attachment-IsSafeName (take 120 shown)
      (take-units 120 shown (drop_dots-units replaced (replace_unsafe-units false _)))
      (length-take 120 shown) (take-visible 120 shown (drop_dots-visible replaced))
