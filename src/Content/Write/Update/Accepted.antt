-- ===== src/Content/Write/Update/Accepted.antt =====
-- What it means that an update goes on to write: every check of the transaction has passed.
use presslabz.Base.{
  ◌≡◌, sym, subst, ◌∙◌, true, false, Option, none, some, List, arith, Bool-cases, Option-cases, inl,
  inr,
}
use presslabz.Access.Ownership.{Uuid}
use presslabz.Content.Rows.{ContentRow, ContentState, Patch, Db, ContentConflictReason}
use presslabz.Content.Database.{Postgres}
use presslabz.Content.Transaction.{Result-cases, ok}
use presslabz.Content.Tree.{assert_usable_parent}
use presslabz.Content.Schema.{ContentSchema, parse_state, to_state, merge_patch}
use presslabz.Content.References.{MediaIn}
use presslabz.Content.History.{Draws}
use presslabz.Content.Write.Update.{
  UpdateContentOptions, version_matches, derived, authorized, same_parent, check_move, judge,
}

-- `next` is a state that the type, the caller and the tree of pages accept for the row.
pub record IsAccepted (schema : ContentSchema) (rows : List ContentRow) (current : ContentRow)
    (patch : Patch) (options : UpdateContentOptions) (next : ContentState) : Type 0 where
  pub expected : version_matches options.expected_version current.version ≡ true
  pub state :
      parse_state schema (derived options.derive current (merge_patch (to_state current) patch))
      ≡ some next
  pub allowed : authorized options.authorize current next ≡ true
  pub placed :
      (p : Uuid)
      → next.parent_id ≡ some p
      → same_parent (some p) current.parent_id ≡ false
      → assert_usable_parent rows (record {
        child_id = some current.id;
        parent_id = p;
        type = current.type;
        locale = current.locale;
      })
        ≡ none

module _ (current : ContentRow) (db : Db) where
  abbrev at_parent : Uuid → Option ContentConflictReason
  at_parent p = assert_usable_parent db.contents (record {
    child_id = some current.id;
    parent_id = p;
    type = current.type;
    locale = current.locale;
  })

  check_move-ok :
      (q : Option Uuid) {u : Unit} {db' : Db}
      → check_move current q db ≡ ok (u, db')
      → (db' ≡ db)
        × ((p : Uuid)
            → q ≡ some p
            → same_parent (some p) current.parent_id ≡ false
            → at_parent p ≡ none)
  check_move-ok none h = (ground arith, λ p e _. absurd (ground arith))
  check_move-ok (some r) h = elim (Bool-cases (same_parent (some r) current.parent_id)) [
    | inl same ↦ (ground (arith, same), λ p e moved. absurd (ground (arith, same, e, moved)))
    | inr other ↦ elim (Option-cases (at_parent r)) [
      | inl fine ↦ (ground (arith, other, fine), λ p e moved. ground (arith, e, fine))
      | inr (c, bad) ↦ absurd (ground (arith, other, bad))
    ]
  ]

module _ (pg : Postgres) (draws : Draws) (schema : ContentSchema) (media_in : MediaIn) where
  pub judge-IsAccepted :
      (current : ContentRow) (patch : Patch) (options : UpdateContentOptions) (db : Db)
      {next : ContentState} {db' : Db}
      → judge pg draws schema media_in current patch options db ≡ ok (next, db')
      → IsAccepted schema db.contents current patch options next × (db' ≡ db)
  unfolding judge
  judge-IsAccepted current patch options db {next = next} {db' = db'} e =
      let raw = derived options.derive current (merge_patch (to_state current) patch) in
      elim (Bool-cases (version_matches options.expected_version current.version)) [
        | inr stale ↦ absurd (ground (arith, stale, e))
        | inl expected ↦ elim (Option-cases (parse_state schema raw)) [
          | inl bad ↦ absurd (ground (arith, expected, bad, e))
          | inr (s, state) ↦ elim (Bool-cases (authorized options.authorize current s)) [
            | inr refused ↦ absurd (ground (arith, expected, state, refused, e))
            | inl allowed ↦ elim (Result-cases (check_move current s.parent_id db)) [
              | inr (k, bad) ↦ absurd (ground (arith, expected, state, allowed, bad, e))
              | inl ((_, db₁), moved) ↦
                  let (same, placed) = check_move-ok current db s.parent_id moved in
                  let eq : s ≡ next = ground (arith, expected, state, allowed, moved, e) in
                  let final : db₁ ≡ db' = ground (arith, expected, state, allowed, moved, e) in
                  (
                    subst (λ n. IsAccepted schema db.contents current patch options n) eq
                        (record {
                          expected = expected;
                          state = state;
                          allowed = allowed;
                          placed = placed;
                        }),
                    sym final ∙ same,
                  )
            ]
          ]
        ]
      ]
