-- ===== src/Content/Schema/Merge.antt =====
-- The merge of a patch and the schema that judges it: a restore gives back the captured state.
use presslabz.Base.{
  ℕ, ◌≡◌, sym, subst, refl, true, false, none, some, arith, Bool-cases, Option-cases, inl, inr, all,
}
use presslabz.Access.Ownership.{Uuid}
use presslabz.Blocks.Vocabulary.{has_unique_ids}
use presslabz.Content.Rows.{Meta, ContentRow, ContentState, RawState}
use presslabz.Content.History.{revision_of}
use presslabz.Content.Schema.{
  ContentSchema, is_slug, schedule_has_date, fits_fields, parsed_state, parse_state, to_state,
  merge_patch, state_of_revision,
}

-- Restoring the revision of a row over any later state of it asks the type for the state that
-- the row had when the revision was captured, its empty fields included.
pub state_of_revision-parse :
    (schema : ContentSchema) (current row : ContentRow) (id : Uuid) (now : ℕ)
    → parse_state schema
        (merge_patch (to_state current) (state_of_revision (revision_of row id now)))
      ≡ parse_state schema (to_state row)
unfolding parse_state merge_patch state_of_revision to_state
state_of_revision-parse schema current row id now = elim (Option-cases row.excerpt) [
  | inl a ↦ elim (Option-cases row.published_at) [
    | inl b ↦ elim (Option-cases row.parent_id) [
      | inl c ↦ rw (a, b, c) refl
      | inr (x, c) ↦ rw (a, b, c) refl
    ]
    | inr (y, b) ↦ elim (Option-cases row.parent_id) [
      | inl c ↦ rw (a, b, c) refl
      | inr (x, c) ↦ rw (a, b, c) refl
    ]
  ]
  | inr (z, a) ↦ elim (Option-cases row.published_at) [
    | inl b ↦ elim (Option-cases row.parent_id) [
      | inl c ↦ rw (a, b, c) refl
      | inr (x, c) ↦ rw (a, b, c) refl
    ]
    | inr (y, b) ↦ elim (Option-cases row.parent_id) [
      | inl c ↦ rw (a, b, c) refl
      | inr (x, c) ↦ rw (a, b, c) refl
    ]
  ]
]

-- What every state that a type accepts satisfies.
pub record IsValidState (schema : ContentSchema) (state : ContentState) : Type 0 where
  pub slug : is_slug state.slug ≡ true
  pub dated : schedule_has_date state.status state.published_at ≡ true
  pub unique_ids : has_unique_ids state.blocks ≡ true
  pub valid_blocks : all schema.valid_block state.blocks ≡ true
  pub flat : schema.type.hierarchical ≡ false → state.parent_id ≡ none

parsed_state-IsValidState :
    (schema : ContentSchema) (raw : RawState) (values : Meta)
    → fits_fields schema raw ≡ true
    → IsValidState schema (parsed_state schema raw values)
parsed_state-IsValidState schema raw values fits = record {
  slug = ground (arith, fits);
  dated = ground (arith, fits);
  unique_ids = ground (arith, fits);
  valid_blocks = ground (arith, fits);
  flat = λ h. rw h refl;
}

pub parse_state-IsValidState :
    (schema : ContentSchema) (raw : RawState) {state : ContentState}
    → parse_state schema raw ≡ some state
    → IsValidState schema state
unfolding parse_state
parse_state-IsValidState schema raw {state = state} e =
    elim (Option-cases (schema.parse_meta raw.meta)) [
      | inl bad ↦ absurd (ground (arith, bad, e))
      | inr (values, good) ↦ elim (Bool-cases (fits_fields schema raw)) [
        | inr bad ↦ absurd (ground (arith, good, bad, e))
        | inl fits ↦
            let eq : state ≡ parsed_state schema raw values = ground (arith, good, fits, e) in
            subst (IsValidState schema) (sym eq) (parsed_state-IsValidState schema raw values fits)
      ]
    ]
