-- ===== src/Blocks/Vocabulary.antt =====
-- packages/blocks/src/inline.ts, blocks.ts and media.ts: the shapes that the schemas infer, and
-- which assets a document's body names. A text is a list of UTF-16 code units, since that is
-- what JavaScript's string operations count and cut.
use presslabz.Base.{ℕ, Bool, true, false, Option, List, [], ◌∷◌, ◌++◌, ◌==◌, any, if◌then◌else◌}
use presslabz.Access.Ownership.{Uuid}

abbrev pub Text : Type 0
Text = List ℕ

pub data Mark : Type 0 where
  bold italic strike code : Mark
  link : (href : Text) (new_tab : Option Bool) → Mark

-- `marks` is optional, and an absent list is not an empty one.
pub record InlineNode : Type 0 where
  pub text : Text
  pub marks : Option (List Mark)

abbrev pub InlineContent : Type 0
InlineContent = List InlineNode

pub data Block : Type 0 where
  paragraph : (id : Uuid) (content : InlineContent) → Block
  heading : (id : Uuid) (level : ℕ) (content : InlineContent) → Block
  quote : (id : Uuid) (content : InlineContent) (attribution : Option Text) → Block
  list_of : (id : Uuid) (ordered : Bool) (items : List InlineContent) → Block
  code : (id : Uuid) (language : Option Text) (source : Text) → Block
  image : (id : Uuid) (media_id : Uuid) (caption : Option InlineContent) → Block
  divider : (id : Uuid) → Block

abbrev pub Blocks : Type 0
Blocks = List Block

abbrev pub block_id : Block → Uuid
block_id (paragraph id content) = id
block_id (heading id level content) = id
block_id (quote id content attribution) = id
block_id (list_of id ordered items) = id
block_id (code id language source) = id
block_id (image id media_id caption) = id
block_id (divider id) = id

pub record BlockMediaReference : Type 0 where
  pub media_id : Uuid
  pub block_id : Uuid

-- `BLOCK_MEDIA`, one entry for each type of block.
abbrev pub block_media : Block → List BlockMediaReference
block_media (paragraph id content) = []
block_media (heading id level content) = []
block_media (quote id content attribution) = []
block_media (list_of id ordered items) = []
block_media (code id language source) = []
block_media (divider id) = []
block_media (image id media_id caption) = record { media_id = media_id; block_id = id } ∷ []

unfoldable pub media_references_in_blocks : Blocks → List BlockMediaReference
media_references_in_blocks [] = []
media_references_in_blocks (b ∷ bs) = block_media b ++ media_references_in_blocks bs

-- The refinement of `blocksSchema`: the loop with its set of ids seen, which adds an issue where
-- an id comes again. It is the absence of issues that the schema reports.
abbrev pub unseen : List Uuid → Blocks → Bool
unseen seen [] = true
unseen seen (b ∷ bs) =
    if any (λ id. id == block_id b) seen then false else unseen (block_id b ∷ seen) bs

unfoldable pub has_unique_ids : Blocks → Bool
has_unique_ids bs = unseen [] bs
