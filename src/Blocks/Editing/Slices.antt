-- ===== src/Blocks/Editing/Slices.antt =====
-- The plain text of what the parts of an edit make.
use presslabz.Base.{
  ℕ, zero, suc, ◌+◌, ◌-◌, ◌≡◌, ◌∙◌, refl, sym, ap, true, List, [], ◌∷◌, ◌++◌, arith, leb, min, max,
  take, drop, length, Bool-cases, inl, inr, if◌then◌else◌,
}
use presslabz.Blocks.Vocabulary.{Text, InlineNode, InlineContent}
use presslabz.Blocks.Editing.{
  slice_from, inline_to_text, same_text, same_marks, push, merge_onto, middle_of,
}

pub append_nil : (xs : Text) → xs ++ [] ≡ xs
append_nil [] = refl
append_nil (x ∷ xs) = ap (λ l. x ∷ l) (append_nil xs)

pub append_assoc : (xs ys zs : Text) → (xs ++ ys) ++ zs ≡ xs ++ (ys ++ zs)
append_assoc [] ys zs = refl
append_assoc (x ∷ xs) ys zs = ap (λ l. x ∷ l) (append_assoc xs ys zs)

pub drop_nil : (n : ℕ) → drop {A = ℕ} n [] ≡ []
drop_nil zero = refl
drop_nil (suc n) = refl

take_nil : (n : ℕ) → take {A = ℕ} n [] ≡ []
take_nil zero = refl
take_nil (suc n) = refl

pub length-drop : (n : ℕ) (xs : Text) → length (drop n xs) ≡ length xs - n
length-drop zero xs = ground arith
length-drop (suc n) [] = ground arith
length-drop (suc n) (x ∷ xs) = ground (arith, length-drop n xs)

drop-append : (n : ℕ) (xs ys : Text) → drop n (xs ++ ys) ≡ drop n xs ++ drop (n - length xs) ys
drop-append zero [] ys = refl
drop-append zero (x ∷ xs) ys =
    ap (λ k. x ∷ (xs ++ drop k ys)) {x = 0} {y = 0 - suc (length xs)} (omega arith)
drop-append (suc n) [] ys = ap (λ k. drop k ys) {x = suc n} {y = suc n - 0} (omega arith)
drop-append (suc n) (x ∷ xs) ys =
    drop-append n xs ys
    ∙ ap (λ k. drop n xs ++ drop k ys) {x = n - length xs} {y = suc n - suc (length xs)}
        (omega arith)

take-append : (n : ℕ) (xs ys : Text) → take n (xs ++ ys) ≡ take n xs ++ take (n - length xs) ys
take-append zero [] ys = refl
take-append zero (x ∷ xs) ys = ap (λ k. take k ys) {x = 0} {y = 0 - suc (length xs)} (omega arith)
take-append (suc n) [] ys = ap (λ k. take k ys) {x = suc n} {y = suc n - 0} (omega arith)
take-append (suc n) (x ∷ xs) ys =
    ap (λ l. x ∷ l)
      (take-append n xs ys
        ∙ ap (λ k. take n xs ++ take k ys) {x = n - length xs} {y = suc n - suc (length xs)}
            (omega arith))

-- Two counts take the same of a text if they differ only beyond its end.
take_same : (m n : ℕ) (xs : Text) → min m (length xs) ≡ min n (length xs) → take m xs ≡ take n xs
take_same zero zero xs e = refl
take_same zero (suc n) [] e = refl
take_same zero (suc n) (x ∷ xs) e = absurd (ground arith)
take_same (suc m) zero [] e = refl
take_same (suc m) zero (x ∷ xs) e = absurd (ground arith)
take_same (suc m) (suc n) [] e = refl
take_same (suc m) (suc n) (x ∷ xs) e = ap (λ l. x ∷ l) (take_same m n xs (ground arith))

-- From one place of a text to another.
abbrev pub part : Text → ℕ → ℕ → Text
part xs from to = take (to - from) (drop from xs)

part-append :
    (xs ys : Text) (a b : ℕ)
    → part (xs ++ ys) a b ≡ part xs a b ++ part ys (a - length xs) (b - length xs)
part-append xs ys a b =
    ap (take (b - a)) (drop-append a xs ys)
    ∙ take-append (b - a) (drop a xs) (drop (a - length xs) ys)
    ∙ ap (λ n. take (b - a) (drop a xs) ++ take n (drop (a - length xs) ys))
        (ground (arith, length-drop a xs))

part_nil : (a b : ℕ) → part [] a b ≡ []
part_nil a b = ap (take (b - a)) (drop_nil a) ∙ take_nil (b - a)

-- A node's share of a range.
share :
    (offset from to : ℕ) (xs : Text)
    → (if leb (min to (offset + length xs)) (max from offset)
        then []
        else take
            (min to (offset + length xs) - max from offset)
            (drop (max from offset - offset) xs))
      ≡ part xs (from - offset) (to - offset)
share offset from to xs =
    let low = drop (from - offset) xs in
    elim (Bool-cases (leb (min to (offset + length xs)) (max from offset))) [
      | inl e ↦ rw e (
          take_same 0 (to - offset - (from - offset)) low
            (ground (arith, e, length-drop (from - offset) xs)))
      | inr e ↦ rw e (
          ap (λ k. take (min to (offset + length xs) - max from offset) (drop k xs))
            {x = max from offset - offset} {y = from - offset} (omega arith)
          ∙ take_same (min to (offset + length xs) - max from offset)
              (to - offset - (from - offset)) low
              (ground (arith, e, length-drop (from - offset) xs)))
    ]

pub inline_to_text-slice :
    (offset : ℕ) (content : InlineContent) (from to : ℕ)
    → inline_to_text (slice_from offset content from to)
      ≡ part (inline_to_text content) (from - offset) (to - offset)
unfolding inline_to_text slice_from
inline_to_text-slice offset [] from to = sym (part_nil (from - offset) (to - offset))
inline_to_text-slice offset (node ∷ content) from to =
    let n = length node.text in
    let others = inline_to_text content in
    let a = from - offset in
    let b = to - offset in
    let first : from - (offset + n) ≡ a - n = omega arith in
    let second : to - (offset + n) ≡ b - n = omega arith in
    let rest : inline_to_text (slice_from (offset + n) content from to)
        ≡ part others (a - n) (b - n) =
      inline_to_text-slice (offset + n) content from to ∙ (λ i. part others (first i) (second i)) in
    let piece = share offset from to node.text in
    elim (Bool-cases (leb (min to (offset + n)) (max from offset))) [
      | inl e ↦ rw e (
          rest
          ∙ ap (λ l. l ++ part others (a - n) (b - n)) (rw e at piece)
          ∙ sym (part-append node.text others a b))
      | inr e ↦ rw e (
          ap
            (λ l.
              take (min to (offset + n) - max from offset)
                (drop (max from offset - offset) node.text)
              ++ l)
            rest
          ∙ ap (λ l. l ++ part others (a - n) (b - n)) (rw e at piece)
          ∙ sym (part-append node.text others a b))
    ]

pub inline_to_text-append :
    (xs ys : InlineContent) → inline_to_text (xs ++ ys) ≡ inline_to_text xs ++ inline_to_text ys
unfolding inline_to_text
inline_to_text-append [] ys = refl
inline_to_text-append (x ∷ xs) ys =
    ap (λ l. x.text ++ l) (inline_to_text-append xs ys)
    ∙ sym (append_assoc x.text (inline_to_text xs) (inline_to_text ys))

inline_to_text-push :
    (out : List InlineNode) (node : InlineNode)
    → inline_to_text (push out node) ≡ inline_to_text out ++ node.text
unfolding inline_to_text push
inline_to_text-push [] node = append_nil node.text
inline_to_text-push (x ∷ []) node = elim (Bool-cases (same_marks x node)) [
  | inl e ↦
      rw e (append_nil (x.text ++ node.text) ∙ ap (λ l. l ++ node.text) (sym (append_nil x.text)))
  | inr e ↦ rw e (
      ap (λ l. x.text ++ l) (append_nil node.text)
      ∙ ap (λ l. l ++ node.text) (sym (append_nil x.text)))
]
inline_to_text-push (x ∷ y ∷ ys) node =
    ap (λ l. x.text ++ l) (inline_to_text-push (y ∷ ys) node)
    ∙ sym (append_assoc x.text (inline_to_text (y ∷ ys)) node.text)

empty-text : (xs : Text) → same_text xs [] ≡ true → xs ≡ []
empty-text [] e = refl
empty-text (x ∷ xs) e = absurd (cc)

pub inline_to_text-merge :
    (out nodes : List InlineNode)
    → inline_to_text (merge_onto out nodes) ≡ inline_to_text out ++ inline_to_text nodes
unfolding inline_to_text merge_onto
inline_to_text-merge out [] = sym (append_nil (inline_to_text out))
inline_to_text-merge out (node ∷ nodes) = elim (Bool-cases (same_text node.text [])) [
  | inl e ↦
      let none_there = empty-text node.text e in rw (e, none_there) (inline_to_text-merge out nodes)
  | inr e ↦ rw e (
      inline_to_text-merge (push out node) nodes
      ∙ ap (λ l. l ++ inline_to_text nodes) (inline_to_text-push out node)
      ∙ append_assoc (inline_to_text out) node.text (inline_to_text nodes))
]

pub inline_to_text-middle :
    (content : InlineContent) (from to : ℕ) (inserted : Text)
    → inline_to_text (middle_of content from to inserted) ≡ inserted
unfolding inline_to_text middle_of
inline_to_text-middle content from to [] = refl
inline_to_text-middle content from to (x ∷ inserted) = append_nil (x ∷ inserted)
