-- ===== src/Base/Updates.antt =====
-- What `update_where` and an append leave as it was: columns, predicates and searches by a key.
use mathlib.Core.Path.{◌≡◌, refl, ap₂}
use mathlib.Core.Logic.{inl, inr}
use mathlib.Core.Bool.{Bool, false}
use mathlib.Core.Option.{none, some}
use mathlib.Core.List.{List, [], ◌∷◌, map, Memᴰ}
use native.Mathlib.Omega.{arith}
use whatsapp_bot.Base.Tests.{if◌then◌else◌, Bool-cases}
use whatsapp_bot.Base.Lists.{All, find_first, update_where}

module _ {ℓ} {A : Type ℓ} (p : A → Bool) (f : A → A) where
  -- A column that `f` does not write stays.
  pub map-update_where {κ} :
      {B : Type κ} (g : A → B) (xs : List A)
      → ((x : A) → g (f x) ≡ g x)
      → map g (update_where p f xs) ≡ map g xs
  map-update_where g [] h = refl
  map-update_where g (x ∷ xs) h = elim (Bool-cases (p x)) [
    | inl hit ↦ rw hit (ap₂ ◌∷◌ (h x) (map-update_where g xs h))
    | inr miss ↦ rw miss (ap₂ ◌∷◌ refl (map-update_where g xs h))
  ]

  -- The row found by a key that `f` does not write is the old one, changed if it passes the test.
  pub find_first-update_where :
      (q : A → Bool) (xs : List A) (x : A)
      → ((y : A) → q (f y) ≡ q y)
      → find_first q xs ≡ some x
      → find_first q (update_where p f xs) ≡ some (if p x then f x else x)
  find_first-update_where q [] x h e = cc
  find_first-update_where q (y ∷ ys) x h e = ground (arith, h y, find_first-update_where q ys x h)

  pub find_first-update_where-none :
      (q : A → Bool) (xs : List A)
      → ((y : A) → q (f y) ≡ q y)
      → find_first q xs ≡ none
      → find_first q (update_where p f xs) ≡ none
  find_first-update_where-none q [] h e = refl
  find_first-update_where-none q (y ∷ ys) h e =
      ground (arith, h y, find_first-update_where-none q ys h)

  pub update_where_none : (xs : List A) → All (λ x. p x ≡ false) xs → update_where p f xs ≡ xs
  update_where_none [] h = refl
  update_where_none (x ∷ xs) h = rw h.0 (ap₂ ◌∷◌ refl (update_where_none xs h.1))

  pub update_where-mem :
      (xs : List A) {x : A} → Memᴰ x xs → Memᴰ (if p x then f x else x) (update_where p f xs)
  update_where-mem [] i = elim i [ ]
  update_where-mem (y ∷ ys) (Memᴰ.head e) = Memᴰ.head (rw e)
  update_where-mem (y ∷ ys) (Memᴰ.tail i) = Memᴰ.tail (update_where-mem ys i)
