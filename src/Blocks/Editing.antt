-- ===== src/Blocks/Editing.antt =====
-- packages/blocks/src/editing.ts: what a plain-text edit does to content that carries marks. A
-- text is a list of UTF-16 code units, which is what the source counts and cuts.
pub mod Slices
pub mod Splice
use presslabz.Base.{
  ℕ, zero, suc, ◌+◌, ◌-◌, Bool, true, false, ◌&&◌, Option, none, some, List, [], ◌∷◌, ◌++◌, ltb,
  leb, ◌==◌, min, max, take, drop, length, if◌then◌else◌,
}
use presslabz.Blocks.Vocabulary.{
  Text, Mark, bold, italic, strike, code, link, InlineNode, InlineContent,
}

-- The first loop, one unit of both texts in each round.
unfoldable pub common_prefix : Text → Text → ℕ
common_prefix [] after = 0
common_prefix (x ∷ before) [] = 0
common_prefix (x ∷ before) (y ∷ after) =
    let rest = common_prefix before after in if x == y then suc rest else 0

abbrev pub at : ℕ → Text → Option ℕ
at i [] = none
at zero (x ∷ xs) = some x
at (suc i) (x ∷ xs) = at i xs

abbrev pub same_unit : Option ℕ → Option ℕ → Bool
same_unit (some a) (some b) = a == b
same_unit _ _ = false

-- The second loop; `rounds` is what is left of the limit, so the index stays below it.
unfoldable pub suffix_from : ℕ → ℕ → Text → Text → ℕ
suffix_from zero index before after = index
suffix_from (suc rounds) index before after =
    let rest = suffix_from rounds (suc index) before after in
    if same_unit (at (length before - 1 - index) before) (at (length after - 1 - index) after)
    then rest
    else index

unfoldable pub common_suffix : Text → Text → ℕ → ℕ
unfolding suffix_from
common_suffix before after prefix =
    suffix_from (min (length before) (length after) - prefix) 0 before after

-- The loop of `slice`, at an offset into the plain text.
unfoldable pub slice_from : ℕ → InlineContent → ℕ → ℕ → List InlineNode
slice_from offset [] from to = []
slice_from offset (node ∷ content) from to =
    let rest = slice_from (offset + length node.text) content from to in
    let cut_from = max from offset in
    let cut_to = min to (offset + length node.text) in
    if leb cut_to cut_from
    then rest
    else record node { text = take (cut_to - cut_from) (drop (cut_from - offset) node.text) } ∷ rest

abbrev pub slice : InlineContent → ℕ → ℕ → List InlineNode
slice content from to = slice_from 0 content from to

-- The index of the node that covers an offset: the source compares nodes by identity.
unfoldable pub node_at : ℕ → ℕ → InlineContent → ℕ → Option (ℕ × InlineNode)
node_at index start [] offset = none
node_at index start (node ∷ content) offset =
    let rest = node_at (suc index) (start + length node.text) content offset in
    if leb start offset && ltb offset (start + length node.text) then some (index, node) else rest

unfoldable pub inline_to_text : InlineContent → Text
inline_to_text [] = []
inline_to_text (node ∷ content) = node.text ++ inline_to_text content

abbrev pub same_text : Text → Text → Bool
same_text [] [] = true
same_text [] (y ∷ ys) = false
same_text (x ∷ xs) [] = false
same_text (x ∷ xs) (y ∷ ys) = x == y && same_text xs ys

abbrev same_flag : Option Bool → Option Bool → Bool
same_flag none none = true
same_flag (some true) (some true) = true
same_flag (some false) (some false) = true
same_flag _ _ = false

-- The marks have one order of keys, so their JSON is the same where they are.
abbrev same_mark : Mark → Mark → Bool
same_mark bold bold = true
same_mark italic italic = true
same_mark strike strike = true
same_mark code code = true
same_mark (link a p) (link b q) = same_text a b && same_flag p q
same_mark _ _ = false

abbrev marks_of : Option (List Mark) → List Mark
marks_of none = []
marks_of (some marks) = marks

abbrev all_same : List Mark → List Mark → Bool
all_same [] [] = true
all_same [] (b ∷ bs) = false
all_same (a ∷ rest) [] = false
all_same (a ∷ rest) (b ∷ bs) = same_mark a b && all_same rest bs

abbrev pub same_marks : InlineNode → InlineNode → Bool
same_marks left right = all_same (marks_of left.marks) (marks_of right.marks)

-- One round of `merge`: onto the last node, or after it.
unfoldable pub push : List InlineNode → InlineNode → List InlineNode
push [] node = node ∷ []
push (x ∷ []) node =
    if same_marks x node then record x { text = x.text ++ node.text } ∷ [] else x ∷ node ∷ []
push (x ∷ y ∷ ys) node = x ∷ push (y ∷ ys) node

abbrev pub push_text : List InlineNode → InlineNode → List InlineNode
push_text out node = if same_text node.text [] then out else push out node

unfoldable pub merge_onto : List InlineNode → List InlineNode → InlineContent
unfolding push
merge_onto out [] = out
merge_onto out (node ∷ nodes) = merge_onto (push_text out node) nodes

abbrev pub merge : List InlineNode → InlineContent
merge nodes = merge_onto [] nodes

-- The marks of the node where the change stands, if it stays inside one.
abbrev pub inherited : Option (ℕ × InlineNode) → Option (ℕ × InlineNode) → Option (List Mark)
inherited (some (i, anchor)) (some (j, other)) = if i == j then anchor.marks else none
inherited _ _ = none

unfoldable pub middle_of : InlineContent → ℕ → ℕ → Text → List InlineNode
unfolding node_at
middle_of content removed_from removed_to [] = []
middle_of content removed_from removed_to (x ∷ inserted) =
    let anchor =
      if removed_from == removed_to
      then node_at 0 0 content (removed_from - 1)
      else node_at 0 0 content removed_from in
    record { text = x ∷ inserted; marks = inherited anchor (node_at 0 0 content (removed_to - 1)) }
    ∷ []

-- The splice, for content and a text that are not empty and differ.
unfoldable pub splice : InlineContent → Text → Text → ℕ → ℕ → InlineContent
unfolding slice_from middle_of merge_onto
splice content before next prefix suffix = merge (
    slice content 0 prefix
    ++ middle_of content prefix (length before - suffix)
        (take (length next - suffix - prefix) (drop prefix next))
    ++ slice content (length before - suffix) (length before))

unfoldable pub replace_other : InlineContent → Text → InlineContent
unfolding inline_to_text common_prefix common_suffix splice
replace_other content [] = []
replace_other [] (x ∷ next) = record { text = x ∷ next; marks = none } ∷ []
replace_other (node ∷ nodes) (x ∷ next) =
    let before = inline_to_text (node ∷ nodes) in
    let prefix = common_prefix before (x ∷ next) in
    splice (node ∷ nodes) before (x ∷ next) prefix (common_suffix before (x ∷ next) prefix)

unfoldable pub replace_inline_text : InlineContent → Text → InlineContent
unfolding replace_other
replace_inline_text content next =
    if same_text (inline_to_text content) next then content else replace_other content next
