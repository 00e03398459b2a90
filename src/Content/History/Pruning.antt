-- ===== src/Content/History/Pruning.antt =====
-- What `pruneRevisions` leaves of the history.
use presslabz.Base.{
  suc, ◌≤◌, ◌≡◌, ◌≢◌, ◌∙◌, ap, subst, refl, Bool, true, not, ◌&&◌, List, [], ◌∷◌, arith, Bool-cases,
  inl, inr, ◌==◌, if◌then◌else◌, any, filter, length, length-take_le, length-filter_le, In, here,
  there, In-filter, filter-In, any-In, In-any,
}
use presslabz.Access.Ownership.{Uuid}
use presslabz.Content.Rows.{RevisionRow, Db}
use presslabz.Content.Database.{Postgres, satisfied, unique_by, content_revisions_pkey}
use presslabz.Content.Transaction.{ok}
use presslabz.Content.Frame.{statement-eq-ok, statement-satisfied}
use presslabz.Content.History.{
  revision_limit, is_newer, order_by, revisions_of, kept_revisions, pruned, prune_revisions,
}

abbrev same_id : Uuid → RevisionRow → Bool
same_id id v = v.id == id

shorter :
    (id : Uuid) (ys : List RevisionRow)
    → any (same_id id) ys ≡ true
    → suc (length (filter (λ k. not (k.id == id)) ys)) ≤ length ys
shorter id [] e = absurd (cc)
shorter id (y ∷ ys) e = elim (Bool-cases (y.id == id)) [
  | inl h ↦ ground (arith, h, length-filter_le (λ (k : RevisionRow). not (k.id == id)) ys)
  | inr h ↦ ground (arith, h, shorter id ys (ground (arith, h, e)))
]

still :
    (x : RevisionRow) (xs ys : List RevisionRow) (z : RevisionRow)
    → unique_by (λ a b. a.id == b.id) (x ∷ xs) ≡ true
    → In z xs
    → any (same_id z.id) ys ≡ true
    → any (same_id z.id) (filter (λ k. not (k.id == x.id)) ys) ≡ true
still x xs ys z u m h =
    let (k, n, same) = any-In (same_id z.id) ys h in
    elim (Bool-cases (x.id == z.id)) [
      | inl eq ↦ absurd (ground (arith, u, In-any (λ (b : RevisionRow). x.id == b.id) m eq))
      | inr ne ↦
          In-any (same_id z.id)
            (filter-In (λ (k : RevisionRow). not (k.id == x.id)) n (ground (arith, same, ne))) same
    ]

-- Rows with different ids are no more than the rows that hold their ids.
pigeonhole :
    (xs ys : List RevisionRow)
    → unique_by (λ a b. a.id == b.id) xs ≡ true
    → ((x : RevisionRow) → In x xs → any (same_id x.id) ys ≡ true)
    → length xs ≤ length ys
pigeonhole [] ys u h = omega arith
pigeonhole (x ∷ xs) ys u h =
    let others = filter (λ (k : RevisionRow). not (k.id == x.id)) ys in
    let rest =
      pigeonhole xs others (ground (arith, u)) (λ z m. still x xs ys z u m (h z (there m))) in
    omega (arith, rest, shorter x.id ys (h x here))

unique_by-filter :
    (p : RevisionRow → Bool) (xs : List RevisionRow)
    → unique_by (λ a b. a.id == b.id) xs ≡ true
    → unique_by (λ a b. a.id == b.id) (filter p xs) ≡ true
unique_by-filter p [] u = refl
unique_by-filter p (x ∷ xs) u =
    let rest = unique_by-filter p xs (ground (arith, u)) in
    elim (Bool-cases (p x)) [
      | inr e ↦ rw e rest
      | inl e ↦ rw e (elim (Bool-cases (any (λ (b : RevisionRow). x.id == b.id) (filter p xs))) [
        | inr fresh ↦ ground (arith, fresh, rest)
        | inl again ↦
            let (b, m, same) = any-In (λ (b : RevisionRow). x.id == b.id) (filter p xs) again in
            let (n, _) = In-filter p xs m in
            absurd (ground (arith, u, In-any (λ (b : RevisionRow). x.id == b.id) n same))
      ])
    ]

filter-filter :
    (p q : RevisionRow → Bool) (xs : List RevisionRow)
    → ((x : RevisionRow) → p x ≡ true → q x ≡ true)
    → filter p (filter q xs) ≡ filter p xs
filter-filter p q [] h = refl
filter-filter p q (x ∷ xs) h = elim (Bool-cases (q x)) [
  | inl e ↦ rw e (ap (λ l. if p x then x ∷ l else l) (filter-filter p q xs h))
  | inr e ↦ elim (Bool-cases (p x)) [
    | inl a ↦ absurd (ground (arith, e, h x a))
    | inr a ↦ rw (e, a) (filter-filter p q xs h)
  ]
]

kept-le :
    (content_id : Uuid) (revisions : List RevisionRow)
    → length (kept_revisions content_id revisions) ≤ revision_limit
unfolding kept_revisions
kept-le content_id revisions =
    length-take_le revision_limit (order_by is_newer (revisions_of content_id revisions))

module _ (content_id : Uuid) (revisions : List RevisionRow) where
  pruned-kept :
      (v : RevisionRow)
      → In v (revisions_of content_id (pruned content_id revisions))
      → any (same_id v.id) (kept_revisions content_id revisions) ≡ true
  unfolding pruned
  pruned-kept v m =
      let (n, own) =
        In-filter (λ (v : RevisionRow). v.content_id == content_id) (pruned content_id revisions)
          m in
      let (_, test) =
        In-filter
          (λ (v : RevisionRow). not (
            v.content_id == content_id
            && not (any (λ k. k.id == v.id) (kept_revisions content_id revisions))))
          revisions n in
      ground (arith, own, test)

module _ (pg : Postgres) (content_id : Uuid) (db : Db) {db' : Db}
    (run : prune_revisions pg content_id db ≡ ok (tt, db')) where
  pruned_table : db'.revisions ≡ pruned content_id db.revisions
  unfolding prune_revisions
  pruned_table =
      ap (λ (d : Db). d.revisions)
        (statement-eq-ok pg (λ d. record d { revisions = pruned content_id d.revisions }) db run)

  unique_table : unique_by (λ a b. a.id == b.id) db'.revisions ≡ true
  unfolding prune_revisions satisfied
  unique_table =
      statement-satisfied pg (λ d. record d { revisions = pruned content_id d.revisions }) db
        content_revisions_pkey run

  -- After pruning that succeeded, the document keeps at most fifty revisions.
  pub prune_revisions-le : length (revisions_of content_id db'.revisions) ≤ revision_limit
  prune_revisions-le =
      let own : List RevisionRow = revisions_of content_id db'.revisions in
      let kept : List RevisionRow = kept_revisions content_id db.revisions in
      let fits =
        pigeonhole own kept
          (unique_by-filter (λ v. v.content_id == content_id) db'.revisions unique_table)
          (λ x m.
            pruned-kept content_id db.revisions x
              (subst (λ l. In x (revisions_of content_id l)) pruned_table m)) in
      omega (arith, fits, kept-le content_id db.revisions)

  -- Pruning that succeeded leaves the history of every other document as it was.
  pub prune_revisions-others :
      (other : Uuid)
      → other ≢ content_id
      → revisions_of other db'.revisions ≡ revisions_of other db.revisions
  unfolding pruned
  prune_revisions-others other differs =
      ap (revisions_of other) pruned_table
      ∙ filter-filter (λ v. v.content_id == other)
          (λ v. not (
            v.content_id == content_id
            && not (any (λ k. k.id == v.id) (kept_revisions content_id db.revisions))))
          db.revisions (λ v own. ground (arith, own, differs))
