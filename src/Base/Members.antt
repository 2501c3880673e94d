-- ===== src/Base/Members.antt =====
-- Membership, predicates of all rows and of all pairs of rows, and what the searches return.
use Prim.Native.Nat.{ℕ, ◌≤◌}
use mathlib.Core.Path.{◌≡◌, refl, sym, subst, ◌∙◌}
use mathlib.Core.Logic.{inl, inr}
use mathlib.Core.Bool.{Bool, true, false, false≢true}
use mathlib.Core.Option.{none, some}
use mathlib.Core.List.{List, [], ◌∷◌, ◌++◌, Memᴰ}
use native.Mathlib.Omega.{arith}
use whatsapp_bot.Base.Tests.{leb, Bool-cases, Option-cases}
use whatsapp_bot.Base.Lists.{All, find_first, earliest, any, count_if}

module _ {ℓ κ} {A : Type ℓ} (R : A → A → Type κ) where
  -- every row is related to every later one
  abbrev pub Pairwise : List A → Type κ
  Pairwise [] = Unit
  Pairwise (x ∷ xs) = All (R x) xs × Pairwise xs

module _ {ℓ κ} {A : Type ℓ} (P : A → Type κ) where
  pub All-mem : (xs : List A) {x : A} → All P xs → Memᴰ x xs → P x
  All-mem [] h i = elim i [ ]
  All-mem (y ∷ ys) h (Memᴰ.head e) = subst P (sym e) h.0
  All-mem (y ∷ ys) h (Memᴰ.tail i) = All-mem ys h.1 i

  pub All-of_mem : (xs : List A) → ((x : A) → Memᴰ x xs → P x) → All P xs
  All-of_mem [] h = tt
  All-of_mem (x ∷ xs) h = (h x (Memᴰ.head refl), All-of_mem xs (λ y i. h y (Memᴰ.tail i)))

  pub All-append_one : (xs : List A) {x : A} → All P xs → P x → All P (xs ++ x ∷ [])
  All-append_one [] h p = (p, tt)
  All-append_one (y ∷ ys) h p = (h.0, All-append_one ys h.1 p)

module _ {ℓ κ} {A : Type ℓ} (P Q : A → Type κ) where
  pub All-weaken : ((x : A) → P x → Q x) → (xs : List A) → All P xs → All Q xs
  All-weaken f [] h = tt
  All-weaken f (x ∷ xs) h = (f x h.0, All-weaken f xs h.1)

module _ {ℓ κ} {A : Type ℓ} (R : A → A → Type κ) where
  pub Pairwise-append_one :
      (xs : List A) (x : A) → Pairwise R xs → All (λ y. R y x) xs → Pairwise R (xs ++ x ∷ [])
  Pairwise-append_one [] x h r = (tt, tt)
  Pairwise-append_one (y ∷ ys) x h r =
      (All-append_one (R y) ys h.0 r.0, Pairwise-append_one ys x h.1 r.1)

module _ {ℓ} {A : Type ℓ} where
  pub find_first-mem : (p : A → Bool) (xs : List A) {x : A} → find_first p xs ≡ some x → Memᴰ x xs
  find_first-mem p [] h = cc
  find_first-mem p (y ∷ ys) {x} h = elim (Bool-cases (p y)) [
    | inl found ↦ Memᴰ.head (ground arith)
    | inr later ↦ Memᴰ.tail (find_first-mem p ys (rw later at h))
  ]

  -- A search that fails has met only rows that fail the test.
  pub find_first-none :
      (p : A → Bool) (xs : List A) → find_first p xs ≡ none → All (λ x. p x ≡ false) xs
  find_first-none p [] h = tt
  find_first-none p (y ∷ ys) h = ground (arith, find_first-none p ys)

  pub any_of_mem : (p : A → Bool) (xs : List A) {x : A} → Memᴰ x xs → p x ≡ true → any p xs ≡ true
  any_of_mem p [] i h = elim i [ ]
  any_of_mem p (y ∷ ys) {x} (Memᴰ.head e) h = rw (← e, h)
  any_of_mem p (y ∷ ys) {x} (Memᴰ.tail i) h = ground (arith, any_of_mem p ys i h)

  pub any_mem : (p : A → Bool) (xs : List A) → any p xs ≡ true → (x : A) × Memᴰ x xs × (p x ≡ true)
  any_mem p [] h = cc
  any_mem p (y ∷ ys) h = elim (Bool-cases (p y)) [
    | inl found ↦ (y, Memᴰ.head refl, found)
    | inr later ↦ let (x, i, e) = any_mem p ys (rw later at h) in (x, Memᴰ.tail i, e)
  ]

  pub any-false : (p : A → Bool) (xs : List A) → any p xs ≡ false → All (λ x. p x ≡ false) xs
  any-false p [] h = tt
  any-false p (y ∷ ys) h = ground (arith, any-false p ys)

  pub any-false_of_All : (p : A → Bool) (xs : List A) → All (λ x. p x ≡ false) xs → any p xs ≡ false
  any-false_of_All p [] h = refl
  any-false_of_All p (y ∷ ys) h = ground (arith, any-false_of_All p ys)

  pub count_if_none : (p : A → Bool) (xs : List A) → All (λ x. p x ≡ false) xs → count_if p xs ≡ 0
  count_if_none p [] h = refl
  count_if_none p (x ∷ xs) h = rw h.0 (count_if_none p xs h.1)

  pub find_first_append :
      (p : A → Bool) (xs ys : List A) {x : A}
      → find_first p xs ≡ some x
      → find_first p (xs ++ ys) ≡ some x
  find_first_append p [] ys h = cc
  find_first_append p (y ∷ xs) ys {x} h = ground (arith, find_first_append p xs ys {x = x})

module _ {ℓ} {A : Type ℓ} (p : A → Bool) (key : A → ℕ) where
  -- What `earliest` promises of its result: a row of the table that passes the test, with no
  -- passing row before it in the order of `key`.
  pub record IsEarliest (xs : List A) (x : A) : Type ℓ where
    pub member : Memᴰ x xs
    pub passes : p x ≡ true
    pub minimal : (y : A) → Memᴰ y xs → p y ≡ true → key x ≤ key y

module _ {ℓ} {A : Type ℓ} (p : A → Bool) (key : A → ℕ) where
  IsEarliest-head :
      (y : A) (ys : List A)
      → p y ≡ true
      → ((z : A) → Memᴰ z ys → p z ≡ true → key y ≤ key z)
      → IsEarliest p key (y ∷ ys) y
  IsEarliest-head y ys h least = record { member = Memᴰ.head refl; passes = h; minimal = minimal }
    where
      minimal : (z : A) → Memᴰ z (y ∷ ys) → p z ≡ true → key y ≤ key z
      minimal z (Memᴰ.head e) q = rw e (omega arith)
      minimal z (Memᴰ.tail i) q = least z i q

  IsEarliest-tail :
      (y : A) (ys : List A) (x : A)
      → IsEarliest p key ys x
      → (p y ≡ true → key x ≤ key y)
      → IsEarliest p key (y ∷ ys) x
  IsEarliest-tail y ys x best earlier = record {
    member = Memᴰ.tail best.member;
    passes = best.passes;
    minimal = minimal;
  }
    where
      minimal : (z : A) → Memᴰ z (y ∷ ys) → p z ≡ true → key x ≤ key z
      minimal z (Memᴰ.head e) q = rw e (earlier (rw (← e) q))
      minimal z (Memᴰ.tail i) q = best.minimal z i q

  pub earliest-none : (xs : List A) → earliest p key xs ≡ none → All (λ x. p x ≡ false) xs
  earliest-none [] h = tt
  earliest-none (y ∷ ys) h = ground (arith, earliest-none ys)

  -- The search meets its promise.
  pub earliest-IsEarliest :
      (xs : List A) (x : A) → earliest p key xs ≡ some x → IsEarliest p key xs x
  earliest-IsEarliest [] x h = cc
  earliest-IsEarliest (y ∷ ys) x h = elim (Bool-cases (p y)) [
    | inr skipped ↦ IsEarliest-tail y ys x (earliest-IsEarliest ys x (rw skipped at h)) (λ q. cc)
    | inl taken ↦ elim (Option-cases (earliest p key ys)) [
      | inl alone ↦
          let e : y ≡ x = ground arith in
          subst (IsEarliest p key (y ∷ ys)) e (
            IsEarliest-head y ys taken
              (λ z i q. absurd (false≢true (sym (All-mem _ ys (earliest-none ys alone) i) ∙ q))))
      | inr (b, found) ↦ elim (Bool-cases (leb (key y) (key b))) [
        | inl first ↦
            let e : y ≡ x = ground arith in
            subst (IsEarliest p key (y ∷ ys)) e (
              IsEarliest-head y ys taken (λ z i q.
                let b_first : key b ≤ key z = (earliest-IsEarliest ys b found).minimal z i q in
                ground arith))
        | inr later ↦
            let e : b ≡ x = ground arith in
            subst (IsEarliest p key (y ∷ ys)) e
              (IsEarliest-tail y ys b (earliest-IsEarliest ys b found) (λ q. ground arith))
      ]
    ]
  ]

module _ {ℓ} {A : Type ℓ} where
  pub any_append : (p : A → Bool) (xs ys : List A) → any p xs ≡ true → any p (xs ++ ys) ≡ true
  any_append p [] ys h = cc
  any_append p (x ∷ xs) ys h = ground (arith, any_append p xs ys)

  pub any_append_last :
      (p : A → Bool) (xs : List A) (x : A) → p x ≡ true → any p (xs ++ x ∷ []) ≡ true
  any_append_last p [] x h = rw h
  any_append_last p (y ∷ xs) x h = ground (arith, any_append_last p xs x)
