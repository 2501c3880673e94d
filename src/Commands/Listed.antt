-- ===== src/Commands/Listed.antt =====
-- A command `/sendmulti` that is written as the help says is read back.
use whatsapp_bot.Controller.{then_read}
use whatsapp_bot.Commands.Parse.{
  read_targets, in_target, spaced_rest, multi_message, after_word, spaced_expression, multi,
}
use whatsapp_bot.Commands.{split_from}
use whatsapp_bot.Targets.{trim_start, trim, is_space}
use whatsapp_bot.Base.{
  refl, [], false, ◌∷◌, List, ℕ, Text, ◌≡◌, reverse, All, ◌++◌, ◌∙◌, ◌==◌, some, ap, map, sym, text,
  text_eq,
}
use mathlib.Core.List.{append-nil, append_assoc, reverse_aux}

module _ {A : Type 0} where
  reverse_aux-reverse_aux :
      (xs ys zs : List A) → reverse_aux (reverse_aux xs ys) zs ≡ reverse_aux ys (xs ++ zs)
  reverse_aux-reverse_aux [] ys zs = refl
  reverse_aux-reverse_aux (x ∷ xs) ys zs = reverse_aux-reverse_aux xs (x ∷ ys) zs

  reverse-reverse : (xs : List A) → reverse (reverse xs) ≡ xs
  reverse-reverse xs = reverse_aux-reverse_aux xs [] [] ∙ append-nil xs

  All-reverse_aux :
      (P : A → Type 0) (xs ys : List A) → All P xs → All P ys → All P (reverse_aux xs ys)
  All-reverse_aux P [] ys h k = k
  All-reverse_aux P (x ∷ xs) ys h k = All-reverse_aux P xs (x ∷ ys) h.1 (h.0, k)

-- A unit of a target: no blank and no comma.
abbrev pub IsPlain : ℕ → Type 0
IsPlain c = (is_space c ≡ false) × (c == 44 ≡ false)

-- A text that can stand in the list.
abbrev pub IsTargetWord : Text → Type 0
IsTargetWord [] = ⊥
IsTargetWord (c ∷ cs) = All IsPlain (c ∷ cs)

-- The targets with a comma between each two.
pub comma_list : Text → List Text → Text
comma_list t [] = t
comma_list t (u ∷ us) = t ++ 44 ∷ comma_list u us

trim_start-plain : (s : Text) → All IsPlain s → trim_start s ≡ s
unfolding trim_start
trim_start-plain [] h = refl
trim_start-plain (c ∷ cs) h = rw h.0.0

trim-plain : (s : Text) → All IsPlain s → trim s ≡ s
unfolding trim
trim-plain s h =
    let reversed = trim_start-plain (reverse s) (All-reverse_aux IsPlain s [] h tt) in
    rw (trim_start-plain s h, reversed, reverse-reverse s)

split_from-plain :
    (part cs rest : Text)
    → All IsPlain cs
    → split_from part (cs ++ rest) ≡ split_from (reverse_aux cs part) rest
unfolding split_from
split_from-plain part [] rest h = refl
split_from-plain part (c ∷ cs) rest h = rw h.0.1 (split_from-plain (c ∷ part) cs rest h.1)

read_targets-plain :
    (taken cs rest : Text)
    → All IsPlain cs
    → read_targets in_target taken [] (cs ++ rest)
      ≡ read_targets in_target (reverse_aux cs taken) [] rest
unfolding read_targets
read_targets-plain taken [] rest h = refl
read_targets-plain taken (c ∷ cs) rest h =
    rw (h.0.0, h.0.1) (read_targets-plain (c ∷ taken) cs rest h.1)

comma_list-cons :
    (c : ℕ) (cs : Text) (ts : List Text) → comma_list (c ∷ cs) ts ≡ c ∷ comma_list cs ts
unfolding comma_list
comma_list-cons c cs [] = refl
comma_list-cons c cs (t ∷ ts) = refl

module _ (m : ℕ) (ms : Text) (plain : IsPlain m) (trimmed_message : trim (m ∷ ms) ≡ m ∷ ms) where
  -- The blank behind the last target.
  read_targets-end :
      (taken : Text)
      → read_targets in_target taken [] (32 ∷ m ∷ ms)
        ≡ some (record { expression = reverse taken; rest = m ∷ ms })
  unfolding read_targets spaced_rest
  read_targets-end taken = rw (plain.0, plain.1, trimmed_message)

  -- A comma and the first unit of the next target.
  read_targets-comma :
      (taken rest : Text) (c : ℕ)
      → IsPlain c
      → read_targets in_target taken [] (44 ∷ c ∷ rest)
        ≡ read_targets in_target (c ∷ 44 ∷ taken) [] rest
  unfolding read_targets
  read_targets-comma taken rest c h = rw (h.0, h.1)

  read_targets-list :
      (taken t : Text) (ts : List Text)
      → All IsPlain t
      → All IsTargetWord ts
      → read_targets in_target taken [] (comma_list t ts ++ 32 ∷ m ∷ ms)
        ≡ some (record { expression = reverse_aux taken (comma_list t ts); rest = m ∷ ms })
  unfolding comma_list
  read_targets-list taken t [] h k = rw (
    read_targets-plain taken t (32 ∷ m ∷ ms) h,
    read_targets-end (reverse_aux t taken),
    reverse_aux-reverse_aux t taken [],
    append-nil t,
  )
  read_targets-list taken t ([] ∷ us) h k = absurd k.0
  read_targets-list taken t ((c ∷ cs) ∷ us) h k =
      let after = reverse_aux t taken in
      rw (
        comma_list-cons c cs us,
        append_assoc t (44 ∷ c ∷ comma_list cs us) (32 ∷ m ∷ ms),
        read_targets-plain taken t (44 ∷ c ∷ comma_list cs us ++ 32 ∷ m ∷ ms) h,
        read_targets-comma after (comma_list cs us ++ 32 ∷ m ∷ ms) c k.0.0,
        read_targets-list (c ∷ 44 ∷ after) cs us k.0.1 k.1,
        reverse_aux-reverse_aux t taken (44 ∷ c ∷ comma_list cs us),
      )

split_from-end : (word : Text) → split_from word [] ≡ reverse word ∷ []
unfolding split_from
split_from-end word = refl

split_from-comma :
    (word rest : Text) → split_from word (44 ∷ rest) ≡ reverse word ∷ split_from [] rest
unfolding split_from
split_from-comma word rest = refl

split_from-list :
    (part t : Text) (ts : List Text)
    → All IsPlain t
    → All IsTargetWord ts
    → split_from part (comma_list t ts) ≡ reverse (reverse_aux t part) ∷ ts
unfolding comma_list
split_from-list part t [] h k =
    ap (split_from part) (sym (append-nil t))
    ∙ split_from-plain part t [] h
    ∙ split_from-end (reverse_aux t part)
split_from-list part t ([] ∷ us) h k = absurd k.0
split_from-list part t ((c ∷ cs) ∷ us) h k = rw (
  split_from-plain part t (44 ∷ comma_list (c ∷ cs) us) h,
  split_from-comma (reverse_aux t part) (comma_list (c ∷ cs) us),
  split_from-list [] (c ∷ cs) us k.0 k.1,
  reverse-reverse (c ∷ cs),
)

map-trim : (ts : List Text) → All IsTargetWord ts → map trim ts ≡ ts
map-trim [] h = refl
map-trim ([] ∷ ts) h = absurd h.0
map-trim ((c ∷ cs) ∷ ts) h = rw (trim-plain (c ∷ cs) h.0, map-trim ts h.1)

spaced_expression-list :
    (c : ℕ) (cs : Text) (ts : List Text) (m : ℕ) (ms : Text)
    → All IsPlain (c ∷ cs)
    → All IsTargetWord ts
    → IsPlain m
    → trim (m ∷ ms) ≡ m ∷ ms
    → spaced_expression (32 ∷ comma_list (c ∷ cs) ts ++ 32 ∷ m ∷ ms)
      ≡ some (record { expression = comma_list (c ∷ cs) ts; rest = m ∷ ms })
unfolding trim_start
spaced_expression-list c cs ts m ms h k p e =
    rw (
      comma_list-cons c cs ts,
      h.0.0,
      h.0.0,
      h.0.1,
      read_targets-list m ms p e (c ∷ []) cs ts h.1 k,
    )

multi-list :
    (c : ℕ) (cs : Text) (ts : List Text) (m : ℕ) (ms : Text)
    → All IsPlain (c ∷ cs)
    → All IsTargetWord ts
    → multi (record { expression = comma_list (c ∷ cs) ts; rest = m ∷ ms })
      ≡ some (record { targets = (c ∷ cs) ∷ ts; message = m ∷ ms })
multi-list c cs ts m ms h k = rw (
  split_from-list [] (c ∷ cs) ts h k,
  reverse-reverse (c ∷ cs),
  trim-plain (c ∷ cs) h,
  map-trim ts k,
)

after_head_of_list :
    (rest : Text)
    → multi_message (text "/sendmulti " ++ rest) ≡ then_read (spaced_expression (32 ∷ rest)) multi
unfolding multi_message after_word text text_eq
after_head_of_list rest = refl

-- Targets without blanks and commas, none empty, and a message without blanks at its ends that
-- begins with no comma, are what `/sendmulti` reads back from its usual form.
pub multi_message_listed :
    (t : Text) (ts : List Text) (m : ℕ) (ms : Text)
    → IsTargetWord t
    → All IsTargetWord ts
    → IsPlain m
    → trim (m ∷ ms) ≡ m ∷ ms
    → multi_message (text "/sendmulti " ++ (comma_list t ts ++ 32 ∷ m ∷ ms))
      ≡ some (record { targets = t ∷ ts; message = m ∷ ms })
multi_message_listed [] ts m ms h k p e = absurd h
multi_message_listed (c ∷ cs) ts m ms h k p e = rw (
  after_head_of_list (comma_list (c ∷ cs) ts ++ 32 ∷ m ∷ ms),
  spaced_expression-list c cs ts m ms h k p e,
  multi-list c cs ts m ms h k,
)
