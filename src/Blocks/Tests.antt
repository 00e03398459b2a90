-- ===== src/Blocks/Tests.antt =====
-- An edit inside a bold word.
use presslabz.Base.{ℕ, ◌+◌, ◌≡◌, refl, true, length, arith, some, none, [], ◌∷◌}
use presslabz.Blocks.UniqueIds.{with_unique_ids, with_unique_ids-has_unique_ids}
use presslabz.Blocks.Vocabulary.{divider, Blocks, has_unique_ids, Text, bold, InlineContent}
use presslabz.Blocks.Editing.{inline_to_text, replace_inline_text}
use presslabz.Blocks.Editing.Splice.{inline_to_text-replace_inline_text}

abbrev content : InlineContent
content =
    record { text = 1 ∷ 2 ∷ []; marks = none }
    ∷ record { text = 3 ∷ 4 ∷ 5 ∷ []; marks = some (bold ∷ []) }
    ∷ record { text = 6 ∷ []; marks = none }
    ∷ []

abbrev typed : Text
typed = 1 ∷ 2 ∷ 3 ∷ 9 ∷ 5 ∷ 6 ∷ []

bold_is_kept :
    replace_inline_text content typed
    ≡ record { text = 1 ∷ 2 ∷ []; marks = none }
      ∷ record { text = 3 ∷ 9 ∷ 5 ∷ []; marks = some (bold ∷ []) }
      ∷ record { text = 6 ∷ []; marks = none }
      ∷ []
unfolding replace_inline_text
bold_is_kept = refl

inline_to_text-replace_inline_text_example :
    inline_to_text (replace_inline_text content typed) ≡ typed
inline_to_text-replace_inline_text_example = inline_to_text-replace_inline_text content typed

-- Two blocks came with one id, and the first id that is drawn is taken as well.
abbrev copies : Blocks
copies = divider 5 ∷ divider 5 ∷ divider 5 ∷ []

abbrev drawn : ℕ → ℕ
drawn n = n + 5

with_unique_ids-has_unique_ids_example :
    (result : Blocks) × (with_unique_ids drawn 3 copies ≡ some result)
    × (has_unique_ids result ≡ true)
    × (length result ≡ 3)
with_unique_ids-has_unique_ids_example =
    with_unique_ids-has_unique_ids drawn copies 3 (λ m n d e. d (omega (arith, e))) (omega arith)
