-- ===== src/Base/Sorting.antt =====
-- `ORDER BY`: insertion into a sorted list, rows that are equal in the order of the table.
use Prim.Native.Nat.{suc}
use mathlib.Core.Path.{◌≡◌, refl}
use mathlib.Core.Logic.{inl, inr}
use mathlib.Core.Bool.{Bool, true, false}
use mathlib.Core.List.{List, [], ◌∷◌}
use native.Mathlib.Omega.{arith}
use whatsapp_bot.Base.Tests.{if◌then◌else◌, Bool-cases}
use whatsapp_bot.Base.Lists.{All, length, count_if, select}

module _ {ℓ} {A : Type ℓ} (before : A → A → Bool) where
  unfoldable pub insert_row : A → List A → List A
  insert_row x [] = x ∷ []
  insert_row x (y ∷ ys) = if before y x then y ∷ insert_row x ys else x ∷ y ∷ ys

  unfoldable pub sort_rows : List A → List A
  sort_rows [] = []
  sort_rows (x ∷ xs) = insert_row x (sort_rows xs)

  -- No row stands directly before one that comes before it.
  pub sort_rows-one : (x : A) → sort_rows (x ∷ []) ≡ x ∷ []
  unfolding sort_rows insert_row
  sort_rows-one x = refl

  abbrev pub IsOrdered : List A → Type 0
  IsOrdered [] = Unit
  IsOrdered (x ∷ []) = Unit
  IsOrdered (x ∷ y ∷ ys) = (before y x ≡ false) × IsOrdered (y ∷ ys)

  count_if-insert_row :
      (p : A → Bool) (x : A) (ys : List A) → count_if p (insert_row x ys) ≡ count_if p (x ∷ ys)
  unfolding insert_row
  count_if-insert_row p x [] = refl
  count_if-insert_row p x (y ∷ ys) = ground (arith, count_if-insert_row p x ys)

  -- Sorting keeps every row as often as it was there.
  pub count_if-sort_rows : (p : A → Bool) (xs : List A) → count_if p (sort_rows xs) ≡ count_if p xs
  unfolding sort_rows
  count_if-sort_rows p [] = refl
  count_if-sort_rows p (x ∷ xs) =
      ground (arith, count_if-insert_row p x (sort_rows xs), count_if-sort_rows p xs)

  length-insert_row : (x : A) (ys : List A) → length (insert_row x ys) ≡ suc (length ys)
  unfolding insert_row
  length-insert_row x [] = refl
  length-insert_row x (y ∷ ys) = ground (arith, length-insert_row x ys)

  pub length-sort_rows : (xs : List A) → length (sort_rows xs) ≡ length xs
  unfolding sort_rows
  length-sort_rows [] = refl
  length-sort_rows (x ∷ xs) = omega (arith, length-insert_row x (sort_rows xs), length-sort_rows xs)

  module _ (asymmetric : (x y : A) → before x y ≡ true → before y x ≡ false) where
    insert_after :
        (z x : A) (ys : List A)
        → before x z ≡ false
        → IsOrdered (z ∷ ys)
        → IsOrdered (z ∷ insert_row x ys)
    unfolding insert_row
    insert_after z x [] h o = (h, tt)
    insert_after z x (y ∷ ys) h o = elim (Bool-cases (before y x)) [
      | inl e ↦ rw e (o.0, insert_after y x ys (asymmetric y x e) o.1)
      | inr e ↦ rw e (h, (e, o.1))
    ]

    insert_row-IsOrdered : (x : A) (ys : List A) → IsOrdered ys → IsOrdered (insert_row x ys)
    unfolding insert_row
    insert_row-IsOrdered x [] o = tt
    insert_row-IsOrdered x (y ∷ ys) o = elim (Bool-cases (before y x)) [
      | inl e ↦ rw e (insert_after y x ys (asymmetric y x e) o)
      | inr e ↦ rw e (e, o)
    ]

    pub sort_rows-IsOrdered : (xs : List A) → IsOrdered (sort_rows xs)
    unfolding sort_rows
    sort_rows-IsOrdered [] = tt
    sort_rows-IsOrdered (x ∷ xs) = insert_row-IsOrdered x (sort_rows xs) (sort_rows-IsOrdered xs)

module _ {ℓ κ} {A : Type ℓ} (P : A → Type κ) (before : A → A → Bool) where
  All-insert_row : (x : A) (ys : List A) → P x → All P ys → All P (insert_row before x ys)
  unfolding insert_row
  All-insert_row x [] p h = (p, tt)
  All-insert_row x (y ∷ ys) p h = elim (Bool-cases (before y x)) [
    | inl e ↦ rw e (h.0, All-insert_row x ys p h.1)
    | inr e ↦ rw e (p, h)
  ]

  pub All-sort_rows : (xs : List A) → All P xs → All P (sort_rows before xs)
  unfolding sort_rows
  All-sort_rows [] h = tt
  All-sort_rows (x ∷ xs) h = All-insert_row x (sort_rows before xs) h.0 (All-sort_rows xs h.1)

  pub All-select : (p : A → Bool) (xs : List A) → All P xs → All P (select p xs)
  All-select p [] h = tt
  All-select p (x ∷ xs) h = elim (Bool-cases (p x)) [
    | inl e ↦ rw e (h.0, All-select p xs h.1)
    | inr e ↦ rw e (All-select p xs h.1)
  ]
