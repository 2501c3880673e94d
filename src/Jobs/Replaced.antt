-- ===== src/Jobs/Replaced.antt =====
-- A statement that rewrites one row of `message_jobs`, and the unique index
-- `uq_jobs_active_idempotency`: it goes through unless the row is to be active and another active
-- row carries its key.
use whatsapp_bot.Db.{Db}
use whatsapp_bot.Jobs.Invariant.{id_of, All-map-mem, IsValid, row_of_id}
use whatsapp_bot.Jobs.Rows.{is_active_with, active_keys_unique}
use whatsapp_bot.Domain.Jobs.{is_active}
use whatsapp_bot.Domain.Queue.{QueueJob}
use whatsapp_bot.Base.{
  refl, [], true, false, inl, inr, ◌∷◌, List, Bool, ℕ, ◌≡◌, any, Memᴰ, All, ◌==◌, ◌⊎◌, ◌<◌, not,
  text_eq, if◌then◌else◌, map, ◌&&◌, ◌∙◌, update_where, arith, sym, ap, text_eq_comm, any_of_mem,
  Bool-cases, Pairwise, subst, update_where-mem, any_mem,
}

-- Another active row carries the key of `row`.
abbrev pub is_replaced : QueueJob → List QueueJob → Bool
is_replaced row = any (λ other.
    not (row.id == other.id)
    && (is_active other.status && text_eq row.idempotency_key other.idempotency_key))

-- Two active rows with one key break the index.
pub active_keys_unique_two :
    (rows : List QueueJob) (a b : QueueJob)
    → Memᴰ a rows
    → Memᴰ b rows
    → (a.id == b.id) ≡ false
    → is_active a.status ≡ true
    → is_active b.status ≡ true
    → text_eq a.idempotency_key b.idempotency_key ≡ true
    → active_keys_unique rows ≡ false
unfolding active_keys_unique is_active_with
active_keys_unique_two [] a b i j ne aa ab same = elim i [ ]
active_keys_unique_two (x ∷ rows) a b (Memᴰ.head e) (Memᴰ.head d) ne aa ab same =
    let same_row : a ≡ b = e ∙ sym d in
    let self : (a.id == a.id) ≡ true = ground arith in
    ground (arith, ap (λ (r : QueueJob). a.id == r.id) same_row)
active_keys_unique_two (x ∷ rows) a b (Memᴰ.head e) (Memᴰ.tail j) ne aa ab same = ground (
  arith,
  e,
  text_eq_comm a.idempotency_key b.idempotency_key,
  any_of_mem (is_active_with a.idempotency_key) rows j,
)
active_keys_unique_two (x ∷ rows) a b (Memᴰ.tail i) (Memᴰ.head d) ne aa ab same =
    ground (arith, d, any_of_mem (is_active_with b.idempotency_key) rows i)
active_keys_unique_two (x ∷ rows) a b (Memᴰ.tail i) (Memᴰ.tail j) ne aa ab same =
    ground (arith, active_keys_unique_two rows a b i j ne aa ab same)

any-update_where_none :
    (q p : QueueJob → Bool) (f : QueueJob → QueueJob) (rows : List QueueJob)
    → ((j : QueueJob) → Memᴰ j rows → q (if p j then f j else j) ≡ false)
    → any q (update_where p f rows) ≡ false
any-update_where_none q p f [] h = refl
any-update_where_none q p f (x ∷ rows) h =
    rw (h x (Memᴰ.head refl), any-update_where_none q p f rows (λ j i. h j (Memᴰ.tail i)))

id_of_mem :
    (n : ℕ) (rows : List QueueJob) (j : QueueJob)
    → All (λ k. n < k) (map id_of rows)
    → Memᴰ j rows
    → n < j.id
id_of_mem n rows j h i = All-map-mem (λ k. n < k) id_of rows h i

module _ (row : QueueJob) (f : QueueJob → QueueJob)
    (same_key : (r : QueueJob) → (f r).idempotency_key ≡ r.idempotency_key) where
  abbrev is_it : QueueJob → Bool
  is_it j = j.id == row.id

  -- What the row meets in the table: no active row with its key but itself.
  abbrev IsFree : QueueJob → Type 0
  IsFree j =
      ((is_it j ≡ true) × (j ≡ row))
      ⊎ ((is_it j ≡ false)
          × ((is_active (f row).status
                && (is_active j.status && text_eq row.idempotency_key j.idempotency_key))
              ≡ false))

  pair_free :
      (x j : QueueJob)
      → x.id < j.id
      → IsFree x
      → IsFree j
      → (is_active x.status && is_active_with x.idempotency_key j) ≡ false
      → (is_active (if is_it x then f x else x).status
          && is_active_with
              (if is_it x then f x else x).idempotency_key
              (if is_it j then f j else j))
        ≡ false
  unfolding is_active_with
  pair_free x j lt (inl (a, e)) (inl (b, d)) h = ground arith
  pair_free x j lt (inl (a, e)) (inr (b, d)) h =
      rw (a, b, same_key x, e) (ground (arith, text_eq_comm row.idempotency_key j.idempotency_key))
  pair_free x j lt (inr (a, e)) (inl (b, d)) h = rw (a, b, same_key j, d) (ground arith)
  pair_free x j lt (inr (a, e)) (inr (b, d)) h = rw (a, b, h)

  head_free :
      (x : QueueJob) (rows : List QueueJob)
      → All (λ k. x.id < k) (map id_of rows)
      → ((j : QueueJob) → Memᴰ j (x ∷ rows) → IsFree j)
      → (is_active x.status && any (is_active_with x.idempotency_key) rows) ≡ false
      → (is_active (if is_it x then f x else x).status
          && any
              (is_active_with (if is_it x then f x else x).idempotency_key)
              (update_where is_it f rows))
        ≡ false
  head_free x rows lt free h = elim (Bool-cases (is_active (if is_it x then f x else x).status)) [
    | inr asleep ↦ rw asleep
    | inl awake ↦ rw (awake) (
        any-update_where_none (is_active_with (if is_it x then f x else x).idempotency_key) is_it f
          rows
          (λ j i. ground (
            arith,
            pair_free x j (id_of_mem x.id rows j lt i) (free x (Memᴰ.head refl))
                (free j (Memᴰ.tail i))
                (ground (arith, any_of_mem (is_active_with x.idempotency_key) rows i)),
          )))
  ]

  rewrite_unique :
      (rows : List QueueJob)
      → Pairwise ◌<◌ (map id_of rows)
      → ((j : QueueJob) → Memᴰ j rows → IsFree j)
      → active_keys_unique rows ≡ true
      → active_keys_unique (update_where is_it f rows) ≡ true
  unfolding active_keys_unique
  rewrite_unique [] h free u = refl
  rewrite_unique (x ∷ rows) h free u =
      let parts : ((is_active x.status && any (is_active_with x.idempotency_key) rows) ≡ false)
          × (active_keys_unique rows ≡ true) =
        ground arith in
      let head : (is_active (if is_it x then f x else x).status
            && any (is_active_with (if is_it x then f x else x).idempotency_key)
                (update_where is_it f rows))
          ≡ false =
        head_free x rows h.0 free parts.0 in
      rw (head, rewrite_unique rows h.1 (λ j i. free j (Memᴰ.tail i)) parts.1)

rewrite_clashes :
    (row : QueueJob) (f : QueueJob → QueueJob) (rows : List QueueJob) (other : QueueJob)
    → ((r : QueueJob) → (f r).id ≡ r.id)
    → ((r : QueueJob) → (f r).idempotency_key ≡ r.idempotency_key)
    → Memᴰ row rows
    → Memᴰ other rows
    → is_active (f row).status ≡ true
    → (not (row.id == other.id)
        && (is_active other.status && text_eq row.idempotency_key other.idempotency_key))
      ≡ true
    → active_keys_unique (update_where (λ j. j.id == row.id) f rows) ≡ false
rewrite_clashes row f rows other same_id same_key i j active met =
    let there : (if other.id == row.id then f other else other) ≡ other = ground arith in
    let here : (if row.id == row.id then f row else row) ≡ f row = ground arith in
    let updated = update_where (λ j. j.id == row.id) f rows in
    active_keys_unique_two updated (f row) other
      (subst (λ r. Memᴰ r updated) here (update_where-mem (λ j. j.id == row.id) f rows i))
      (subst (λ r. Memᴰ r updated) there (update_where-mem (λ j. j.id == row.id) f rows j))
      (rw (same_id row) (ground arith)) active (ground arith) (rw (same_key row) (ground arith))

row_free :
    (row : QueueJob) (f : QueueJob → QueueJob) (rows : List QueueJob) (j : QueueJob)
    → Memᴰ j rows
    → (j.id == row.id) ≡ false
    → (is_active (f row).status && is_replaced row rows) ≡ false
    → (is_active (f row).status
        && (is_active j.status && text_eq row.idempotency_key j.idempotency_key))
      ≡ false
row_free row f rows j m miss fits =
    elim (Bool-cases (
      not (row.id == j.id)
      && (is_active j.status && text_eq row.idempotency_key j.idempotency_key))) [
        | inl met ↦ ground (
          arith,
          any_of_mem
              (λ other.
                not (row.id == other.id)
                && (is_active other.status && text_eq row.idempotency_key other.idempotency_key))
              rows m met,
        )
        | inr e ↦ ground arith
      ]

-- In a valid database the index admits the rewritten row exactly when the row is not to be active,
-- or no other active row carries its key.
pub active_keys_unique-rewritten :
    (db : Db) (row : QueueJob) (f : QueueJob → QueueJob)
    → ((r : QueueJob) → (f r).id ≡ r.id)
    → ((r : QueueJob) → (f r).idempotency_key ≡ r.idempotency_key)
    → IsValid db
    → Memᴰ row db.jobs
    → active_keys_unique (update_where (λ j. j.id == row.id) f db.jobs)
      ≡ not (is_active (f row).status && is_replaced row db.jobs)
active_keys_unique-rewritten db row f same_id same_key v i =
    elim (Bool-cases (is_active (f row).status && is_replaced row db.jobs)) [
      | inl clash ↦
          let both : (is_active (f row).status ≡ true) × (is_replaced row db.jobs ≡ true) =
            ground arith in
          let (other, j, met) = any_mem _ db.jobs both.1 in
          rw (clash, rewrite_clashes row f db.jobs other same_id same_key i j both.0 met)
      | inr fits ↦ rw fits (
          rewrite_unique row f same_key db.jobs v.ids_ascend
            (λ j m. elim (Bool-cases (j.id == row.id)) [
              | inl hit ↦ inl (hit, row_of_id j row v m i hit)
              | inr miss ↦ inr (miss, row_free row f db.jobs j m miss fits)
            ])
            v.index_holds)
    ]

-- Where the updated row is the only one with its number, the statement puts one row in its place.
update_where_puts :
    (p : QueueJob → Bool) (f : QueueJob → QueueJob) (row : QueueJob) (rows : List QueueJob)
    → ((j : QueueJob) → Memᴰ j rows → p j ≡ true → j ≡ row)
    → update_where p f rows ≡ update_where p (λ _. f row) rows
update_where_puts p f row [] h = refl
update_where_puts p f row (x ∷ rows) h =
    let rest = update_where_puts p f row rows (λ j i. h j (Memᴰ.tail i)) in
    elim (Bool-cases (p x)) [
      | inl hit ↦ rw (hit, rest, h x (Memᴰ.head refl) hit)
      | inr miss ↦ rw (miss, rest)
    ]

pub rewritten_row :
    (f : QueueJob → QueueJob) (db : Db) (row : QueueJob)
    → IsValid db
    → Memᴰ row db.jobs
    → update_where (λ j. j.id == row.id) f db.jobs
      ≡ update_where (λ j. j.id == row.id) (λ _. f row) db.jobs
rewritten_row f db row v i =
    update_where_puts (λ j. j.id == row.id) f row db.jobs (λ j m hit. row_of_id j row v m i hit)
