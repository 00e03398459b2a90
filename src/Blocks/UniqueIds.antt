-- ===== src/Blocks/UniqueIds.antt =====
-- packages/blocks/src/editing.ts: `withUniqueIds`. `new_id n` is what the call of `newId` that
-- comes after `n` others returns; the loop over draws runs on fuel.
use presslabz.Base.{
  ℕ, zero, suc, ◌+◌, ◌≤◌, ◌<◌, ◌≡◌, ◌≢◌, refl, sym, ◌∙◌, ap, subst, inl, inr, Bool, true, false,
  not, ◌||◌, Option, none, some, List, [], ◌∷◌, ◌==◌, if◌then◌else◌, any, filter, length,
  length-filter_le, Bool-cases, arith,
}
use presslabz.Access.Ownership.{Uuid}
use presslabz.Blocks.Vocabulary.{
  Block, Blocks, block_id, unseen, has_unique_ids, paragraph, heading, quote, list_of, code, image,
  divider,
}

abbrev pub is_seen : Uuid → List Uuid → Bool
is_seen x seen = any (λ id. id == x) seen

-- `{ ...block, id }`
abbrev pub with_id : Uuid → Block → Block
with_id id (paragraph old content) = paragraph id content
with_id id (heading old level content) = heading id level content
with_id id (quote old content attribution) = quote id content attribution
with_id id (list_of old ordered items) = list_of id ordered items
with_id id (code old language source) = code id language source
with_id id (image old media_id caption) = image id media_id caption
with_id id (divider old) = divider id

is_seen-filter :
    (x y : Uuid) (seen : List Uuid)
    → y ≢ x
    → is_seen y (filter (λ z. not (z == x)) seen) ≡ is_seen y seen
is_seen-filter x y [] other = refl
is_seen-filter x y (z ∷ seen) other = elim (Bool-cases (z == x)) [
  | inl e ↦
      let wrong : z == y ≡ false = ground (arith, e, other) in
      rw e (rw wrong (is_seen-filter x y seen other))
  | inr e ↦ rw e (ap (λ b. (z == y) || b) (is_seen-filter x y seen other))
]

length-filter_lt :
    (x : Uuid) (seen : List Uuid)
    → is_seen x seen ≡ true
    → length (filter (λ z. not (z == x)) seen) < length seen
length-filter_lt x [] e = absurd (cc)
length-filter_lt x (z ∷ seen) e = elim (Bool-cases (z == x)) [
  | inl h ↦ rw h (let b = length-filter_le (λ z. not (z == x)) seen in omega (arith, b))
  | inr h ↦
      let rest : is_seen x seen ≡ true = rw h at e in
      rw h (let b = length-filter_lt x seen rest in omega (arith, b))
]

block_id-with_id : (id : Uuid) (b : Block) → block_id (with_id id b) ≡ id
block_id-with_id id (paragraph old content) = refl
block_id-with_id id (heading old level content) = refl
block_id-with_id id (quote old content attribution) = refl
block_id-with_id id (list_of old ordered items) = refl
block_id-with_id id (code old language source) = refl
block_id-with_id id (image old media_id caption) = refl
block_id-with_id id (divider old) = refl

module _ (new_id : ℕ → Uuid) where
  -- The first draw that was not seen, and how many calls were made by then.
  unfoldable pub draw : ℕ → List Uuid → ℕ → Option (Uuid × ℕ)
  draw zero seen calls = none
  draw (suc fuel) seen calls =
      let again = draw fuel seen (suc calls) in
      if is_seen (new_id calls) seen then again else some (new_id calls, suc calls)

  abbrev put_first : Block → Option Blocks → Option Blocks
  put_first b none = none
  put_first b (some bs) = some (b ∷ bs)

  abbrev replaced : Block → Option (Uuid × ℕ) → (Uuid → ℕ → Option Blocks) → Option Blocks
  replaced b none rest = none
  replaced b (some (id, calls)) rest = put_first (with_id id b) (rest id calls)

  unfoldable pub unique_from : ℕ → List Uuid → ℕ → Blocks → Option Blocks
  unfolding draw
  unique_from fuel seen calls [] = some []
  unique_from fuel seen calls (b ∷ bs) =
      let kept = put_first b (unique_from fuel (block_id b ∷ seen) calls bs) in
      if is_seen (block_id b) seen
      then replaced b (draw fuel seen calls) (λ id calls'. unique_from fuel (id ∷ seen) calls' bs)
      else kept

  unfoldable pub with_unique_ids : ℕ → Blocks → Option Blocks
  unfolding unique_from
  with_unique_ids fuel bs = unique_from fuel [] 0 bs

  -- An id that no later draw gives can be forgotten.
  draw-filter :
      (x : Uuid) (fuel : ℕ) (seen : List Uuid) (calls : ℕ)
      → ((n : ℕ) → calls ≤ n → new_id n ≢ x)
      → draw fuel (filter (λ y. not (y == x)) seen) calls ≡ draw fuel seen calls
  unfolding draw
  draw-filter x zero seen calls other = refl
  draw-filter x (suc fuel) seen calls other =
      let same = is_seen-filter x (new_id calls) seen (other calls (omega arith)) in
      let rest = draw-filter x fuel seen (suc calls) (λ n b. other n (omega arith)) in
      (λ i. if same i then rest i else some (new_id calls, suc calls))

  draw-fresh :
      (fuel : ℕ) (seen : List Uuid) (calls : ℕ) {id : Uuid} {calls' : ℕ}
      → draw fuel seen calls ≡ some (id, calls')
      → is_seen id seen ≡ false
  unfolding draw
  draw-fresh zero seen calls e = absurd (cc)
  draw-fresh (suc fuel) seen calls {id} {calls'} e =
      elim (Bool-cases (is_seen (new_id calls) seen)) [
        | inl h ↦ draw-fresh fuel seen (suc calls) (rw h at e)
        | inr h ↦
            let same : some (new_id calls, suc calls) ≡ some (id, calls') = rw h at e in
            let eq : new_id calls ≡ id = cc in subst (λ x. is_seen x seen ≡ false) eq h
      ]

  -- Draws that never repeat give an unseen id after as many draws as there are ids seen.
  draw-some :
      ((m n : ℕ) → m ≢ n → new_id m ≢ new_id n)
      → (fuel : ℕ) (seen : List Uuid) (calls : ℕ) → length seen < fuel
      → (r : Uuid × ℕ) × (draw fuel seen calls ≡ some r)
  unfolding draw
  draw-some differ zero seen calls short = absurd (omega arith)
  draw-some differ (suc fuel) seen calls short = elim (Bool-cases (is_seen (new_id calls) seen)) [
    | inr e ↦ ((new_id calls, suc calls), rw e refl)
    | inl e ↦
        let others = filter (λ y. not (y == new_id calls)) seen in
        let shorter = length-filter_lt (new_id calls) seen e in
        let (r, drawn) = draw-some differ fuel others (suc calls) (omega (arith, shorter, short)) in
        let later =
          draw-filter (new_id calls) fuel seen (suc calls) (λ n b. differ n calls (omega arith)) in
        (r, rw e (sym later ∙ drawn))
  ]

  -- The blocks have ids that differ from each other and from those seen, and there are as many.
  record IsRepaired (seen : List Uuid) (bs : Blocks) (o : Option Blocks) : Type 0 where
    result : Blocks
    returns : o ≡ some result
    unique : unseen seen result ≡ true
    as_many : length result ≡ length bs

  put_first-IsRepaired :
      (seen : List Uuid) (b c : Block) (bs : Blocks) (o : Option Blocks)
      → is_seen (block_id c) seen ≡ false
      → IsRepaired (block_id c ∷ seen) bs o
      → IsRepaired seen (b ∷ bs) (put_first c o)
  put_first-IsRepaired seen b c bs o fresh r = record {
    result = c ∷ r.result;
    returns = ap (put_first c) r.returns;
    unique = rw fresh r.unique;
    as_many = ap suc r.as_many;
  }

  unique_from-IsRepaired :
      ((m n : ℕ) → m ≢ n → new_id m ≢ new_id n)
      → (fuel : ℕ) (seen : List Uuid) (calls : ℕ) (bs : Blocks) → length seen + length bs ≤ fuel
      → IsRepaired seen bs (unique_from fuel seen calls bs)
  unfolding unique_from
  unique_from-IsRepaired differ fuel seen calls [] enough = record {
    result = [];
    returns = refl;
    unique = refl;
    as_many = refl;
  }
  unique_from-IsRepaired differ fuel seen calls (b ∷ bs) enough =
      elim (Bool-cases (is_seen (block_id b) seen)) [
        | inr e ↦ rw e (
            put_first-IsRepaired seen b b bs _ e
              (unique_from-IsRepaired differ fuel (block_id b ∷ seen) calls bs (omega arith)))
        | inl e ↦
            let ((id, calls'), drawn) = draw-some differ fuel seen calls (omega arith) in
            let fresh = draw-fresh fuel seen calls drawn in
            let named = block_id-with_id id b in
            let rest = unique_from-IsRepaired differ fuel (id ∷ seen) calls' bs (omega arith) in
            rw e (
              rw drawn (
                put_first-IsRepaired seen b (with_id id b) bs
                  (unique_from fuel (id ∷ seen) calls' bs)
                  (subst (λ x. is_seen x seen ≡ false) (sym named) fresh)
                  (subst (λ x. IsRepaired (x ∷ seen) bs (unique_from fuel (id ∷ seen) calls' bs))
                    (sym named) rest)))
      ]

  -- Where no two calls of `newId` return the same id, the loops of the repair end, within as many
  -- draws as there are blocks; what comes out are as many blocks, with ids that the schema accepts.
  pub with_unique_ids-has_unique_ids :
      (bs : Blocks) (fuel : ℕ)
      → ((m n : ℕ) → m ≢ n → new_id m ≢ new_id n)
      → length bs ≤ fuel
      → (result : Blocks) × (with_unique_ids fuel bs ≡ some result)
        × (has_unique_ids result ≡ true)
        × (length result ≡ length bs)
  unfolding with_unique_ids has_unique_ids
  with_unique_ids-has_unique_ids bs fuel differ enough =
      let r = unique_from-IsRepaired differ fuel [] 0 bs (omega (arith, enough)) in
      (r.result, r.returns, r.unique, r.as_many)

  unique_from-kept :
      (fuel : ℕ) (seen : List Uuid) (calls : ℕ) (bs : Blocks)
      → unseen seen bs ≡ true
      → unique_from fuel seen calls bs ≡ some bs
  unfolding unique_from
  unique_from-kept fuel seen calls [] e = refl
  unique_from-kept fuel seen calls (b ∷ bs) e = elim (Bool-cases (is_seen (block_id b) seen)) [
    | inl h ↦ let never : false ≡ true = rw h at e in absurd (cc)
    | inr h ↦
        rw h (ap (put_first b) (unique_from-kept fuel (block_id b ∷ seen) calls bs (rw h at e)))
  ]

  -- Blocks whose ids differ already are left as they are.
  pub with_unique_ids-kept :
      (fuel : ℕ) (bs : Blocks) → has_unique_ids bs ≡ true → with_unique_ids fuel bs ≡ some bs
  unfolding with_unique_ids has_unique_ids
  with_unique_ids-kept fuel bs e = unique_from-kept fuel [] 0 bs e
