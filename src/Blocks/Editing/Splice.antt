-- ===== src/Blocks/Editing/Splice.antt =====
-- A plain-text edit leaves the text that was typed.
use presslabz.Base.{
  ℕ, zero, suc, ◌+◌, ◌-◌, ◌≤◌, ◌≡◌, ◌∙◌, refl, sym, ap, true, Option, none, some, [], ◌∷◌, ◌++◌,
  arith, min, take, take_all, drop, length, Bool-cases, inl, inr, ◌==◌, ==_iff,
}
use presslabz.Blocks.Vocabulary.{Text, InlineContent}
use presslabz.Blocks.Editing.{
  common_prefix, at, same_unit, suffix_from, common_suffix, slice_from, inline_to_text, same_text,
  middle_of, splice, replace_other, replace_inline_text,
}
use presslabz.Blocks.Editing.Slices.{
  drop_nil, append_nil, append_assoc, length-drop, inline_to_text-slice, inline_to_text-append,
  inline_to_text-merge, inline_to_text-middle,
}

take-drop : (n : ℕ) (xs : Text) → take n xs ++ drop n xs ≡ xs
take-drop zero xs = refl
take-drop (suc n) [] = refl
take-drop (suc n) (x ∷ xs) = ap (λ l. x ∷ l) (take-drop n xs)

drop-drop : (m n : ℕ) (xs : Text) → drop m (drop n xs) ≡ drop (n + m) xs
drop-drop m zero xs = ap (λ k. drop k xs) (omega arith)
drop-drop m (suc n) [] = drop_nil m ∙ sym (drop_nil (suc n + m))
drop-drop m (suc n) (x ∷ xs) =
    drop-drop m n xs ∙ ap (λ k. drop k (x ∷ xs)) {x = suc (n + m)} {y = suc n + m} (omega arith)

common_prefix-le : (a b : Text) → (common_prefix a b ≤ length a) × (common_prefix a b ≤ length b)
unfolding common_prefix
common_prefix-le [] b = (omega arith, omega arith)
common_prefix-le (x ∷ a) [] = (omega arith, omega arith)
common_prefix-le (x ∷ a) (y ∷ b) =
    let (low, high) = common_prefix-le a b in (ground (arith, low), ground (arith, high))

take-common_prefix : (a b : Text) → take (common_prefix a b) a ≡ take (common_prefix a b) b
unfolding common_prefix
take-common_prefix [] b = refl
take-common_prefix (x ∷ a) [] = refl
take-common_prefix (x ∷ a) (y ∷ b) = elim (Bool-cases (x == y)) [
  | inl e ↦ rw (e, (==_iff x y).0 e) (ap (λ l. y ∷ l) (take-common_prefix a b))
  | inr e ↦ rw e refl
]

at-drop : (i : ℕ) (xs : Text) (x : ℕ) → at i xs ≡ some x → drop i xs ≡ x ∷ drop (suc i) xs
at-drop i [] x e = absurd (ground arith)
at-drop zero (y ∷ xs) x e = ground arith
at-drop (suc i) (y ∷ xs) x e = at-drop i xs x e

same_unit-some : (a b : Option ℕ) → same_unit a b ≡ true → (x : ℕ) × (a ≡ some x) × (b ≡ some x)
same_unit-some (some a) (some b) e = (a, refl, ap some (sym ((==_iff a b).0 e)))
same_unit-some (some a) none e = absurd (cc)
same_unit-some none b e = absurd (cc)

module _ (a b : Text) where
  abbrev Agrees : ℕ → Type 0
  Agrees k = drop (length a - k) a ≡ drop (length b - k) b

  Agrees-next :
      (i : ℕ)
      → suc i ≤ min (length a) (length b)
      → same_unit (at (length a - 1 - i) a) (at (length b - 1 - i) b) ≡ true
      → Agrees i
      → Agrees (suc i)
  Agrees-next i room same h =
      let (x, here_a, here_b) =
        same_unit-some (at (length a - 1 - i) a) (at (length b - 1 - i) b) same in
      let left = at-drop (length a - 1 - i) a x here_a in
      let right = at-drop (length b - 1 - i) b x here_b in
      ap (λ k. drop k a) {x = length a - suc i} {y = length a - 1 - i} (omega arith)
      ∙ left
      ∙ ap (λ k. x ∷ drop k a) {x = suc (length a - 1 - i)} {y = length a - i} (omega arith)
      ∙ ap (λ l. x ∷ l) h
      ∙ ap (λ k. x ∷ drop k b) {x = length b - i} {y = suc (length b - 1 - i)} (omega arith)
      ∙ sym right
      ∙ ap (λ k. drop k b) {x = length b - 1 - i} {y = length b - suc i} (omega arith)

  suffix_from-Agrees :
      (rounds index : ℕ)
      → index + rounds ≤ min (length a) (length b)
      → Agrees index
      → (suffix_from rounds index a b ≤ index + rounds) × Agrees (suffix_from rounds index a b)
  unfolding suffix_from
  suffix_from-Agrees zero index room h = (omega arith, h)
  suffix_from-Agrees (suc rounds) index room h =
      elim (Bool-cases (same_unit (at (length a - 1 - index) a) (at (length b - 1 - index) b))) [
        | inr e ↦ (rw e (omega arith), rw e h)
        | inl e ↦
            let (low, agrees) =
              suffix_from-Agrees rounds (suc index) (omega arith)
                (Agrees-next index (omega arith) e h) in
            (rw e (omega arith), rw e agrees)
      ]

drop_all : (xs : Text) → drop (length xs) xs ≡ []
drop_all [] = refl
drop_all (x ∷ xs) = drop_all xs

-- A shared beginning and a shared end with what lies between are the whole text.
rebuilt :
    (a b : Text) (p s : ℕ)
    → p + s ≤ length b
    → take p a ≡ take p b
    → drop (length a - s) a ≡ drop (length b - s) b
    → take p a ++ (take (length b - s - p) (drop p b) ++ drop (length a - s) a) ≡ b
rebuilt a b p s room starts ends =
    let k = length b - s - p in
    let tail : drop (length a - s) a ≡ drop k (drop p b) =
      ends ∙ ap (λ n. drop n b) (omega arith) ∙ sym (drop-drop k p b) in
    rw (starts, tail) (ap (λ l. take p b ++ l) (take-drop k (drop p b)) ∙ take-drop p b)

inline_to_text-splice :
    (content : InlineContent) (next : Text) (p s : ℕ)
    → p + s ≤ length next
    → p ≤ length (inline_to_text content)
    → take p (inline_to_text content) ≡ take p next
    → drop (length (inline_to_text content) - s) (inline_to_text content)
      ≡ drop (length next - s) next
    → inline_to_text (splice content (inline_to_text content) next p s) ≡ next
unfolding splice inline_to_text
inline_to_text-splice content next p s room low starts ends =
    let text = inline_to_text content in
    let cut = length text - s in
    let head = slice_from 0 content 0 p in
    let inserted = take (length next - s - p) (drop p next) in
    let middle = middle_of content p cut inserted in
    let tail = slice_from 0 content cut (length text) in
    let first : inline_to_text head ≡ take p text =
      inline_to_text-slice 0 content 0 p
      ∙ ap (λ k. take k text) {x = p - 0 - 0} {y = p} (omega arith) in
    let last : inline_to_text tail ≡ drop cut text =
      inline_to_text-slice 0 content cut (length text)
      ∙ take_all (length text - 0 - (cut - 0)) (drop (cut - 0) text)
          (ground (arith, length-drop (cut - 0) text))
      ∙ ap (λ k. drop k text) {x = cut - 0} {y = cut} (omega arith) in
    inline_to_text-merge [] (head ++ middle ++ tail)
    ∙ inline_to_text-append (head ++ middle) tail
    ∙ ap (λ l. l ++ inline_to_text tail) (inline_to_text-append head middle)
    ∙ (λ i. first i ++ inline_to_text-middle content p cut inserted i ++ last i)
    ∙ append_assoc (take p text) inserted (drop cut text)
    ∙ rebuilt text next p s room starts ends

same_text-eq : (a b : Text) → same_text a b ≡ true → a ≡ b
same_text-eq [] [] e = refl
same_text-eq [] (y ∷ ys) e = absurd (cc)
same_text-eq (x ∷ xs) [] e = absurd (cc)
same_text-eq (x ∷ xs) (y ∷ ys) e =
    rw ((==_iff x y).0 (ground (arith, e)))
      (ap (λ l. y ∷ l) (same_text-eq xs ys (ground (arith, e))))

inline_to_text-replace_other :
    (content : InlineContent) (next : Text) → inline_to_text (replace_other content next) ≡ next
unfolding replace_other
inline_to_text-replace_other content [] = unfold inline_to_text in refl
inline_to_text-replace_other [] (x ∷ next) = unfold inline_to_text in append_nil (x ∷ next)
inline_to_text-replace_other (node ∷ nodes) (x ∷ next) =
    let content : InlineContent = node ∷ nodes in
    let before : Text = inline_to_text content in
    let typed : Text = x ∷ next in
    let prefix = common_prefix before typed in
    let (low, high) = common_prefix-le before typed in
    let (fits, agrees) =
      suffix_from-Agrees before typed (min (length before) (length typed) - prefix) 0 (omega arith)
        (ap (λ k. drop k before) {x = length before - 0} {y = length before} (omega arith)
          ∙ drop_all before
          ∙ sym (drop_all typed)
          ∙ ap (λ k. drop k typed) {x = length typed} {y = length typed - 0} (omega arith)) in
    inline_to_text-splice content typed prefix (common_suffix before typed prefix)
      (unfold common_suffix in omega (arith, fits, high, low)) low (take-common_prefix before typed)
      (unfold common_suffix in agrees)

-- An edit leaves exactly the text that was typed, whatever marks the content carried.
pub inline_to_text-replace_inline_text :
    (content : InlineContent) (next : Text)
    → inline_to_text (replace_inline_text content next) ≡ next
unfolding replace_inline_text
inline_to_text-replace_inline_text content next =
    elim (Bool-cases (same_text (inline_to_text content) next)) [
      | inl e ↦ rw e (same_text-eq (inline_to_text content) next e)
      | inr e ↦ rw e (inline_to_text-replace_other content next)
    ]
