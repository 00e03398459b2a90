-- ===== src/Content/Listing/Pages.antt =====
-- When a page says that another one follows.
use presslabz.Base.{
  ℕ, zero, suc, ◌+◌, ◌≤◌, ◌<◌, ◌≡◌, ◌≢◌, ◌↔◌, ◌∙◌, ap, refl, false, none, some, List, [], ◌∷◌,
  arith, Bool-cases, inl, inr, ltb, min, max, take, length,
}
use presslabz.Content.Rows.{ContentRow}
use presslabz.Content.Listing.{
  max_page_size, Cursor, ListContentsQuery, is_earlier, insert_listed, sort_listed, page_size,
  matching, list_contents, last, cursor_of, page_of,
}

length-take : (n : ℕ) (xs : List ContentRow) → length (take n xs) ≡ min n (length xs)
length-take zero xs = ground arith
length-take (suc n) [] = ground arith
length-take (suc n) (x ∷ xs) = ground (arith, length-take n xs)

length-insert_listed :
    (r : ContentRow) (xs : List ContentRow) → length (insert_listed r xs) ≡ suc (length xs)
unfolding insert_listed
length-insert_listed r [] = refl
length-insert_listed r (x ∷ xs) = elim (Bool-cases (is_earlier x r)) [
  | inl e ↦ rw e (ap suc (length-insert_listed r xs))
  | inr e ↦ rw e refl
]

length-sort_listed : (xs : List ContentRow) → length (sort_listed xs) ≡ length xs
unfolding sort_listed
length-sort_listed [] = refl
length-sort_listed (x ∷ xs) =
    length-insert_listed x (sort_listed xs) ∙ ap suc (length-sort_listed xs)

cursor_of-some :
    (xs : List ContentRow) → 1 ≤ length xs → (c : Cursor) × (cursor_of (last xs) ≡ some c)
cursor_of-some [] h = absurd (omega arith)
cursor_of-some (x ∷ []) h = (record { at = x.updated_at; id = x.id }, refl)
cursor_of-some (x ∷ y ∷ ys) h = cursor_of-some (y ∷ ys) (omega arith)

module _ (query : ListContentsQuery) (rows : List ContentRow) (limit : ℕ) where
  length-list_contents :
      length (list_contents (record query { limit = some limit }) rows)
      ≡ min (min max_page_size (max 1 limit)) (length (matching query rows))
  unfolding list_contents page_size matching
  length-list_contents =
      length-take (min max_page_size (max 1 limit)) (sort_listed (matching query rows))
      ∙ ap (min (min max_page_size (max 1 limit))) (length-sort_listed (matching query rows))

module _ (query : ListContentsQuery) (rows : List ContentRow) (limit : ℕ) where
  -- Below the largest page size, a page names a next cursor exactly if more rows match than it
  -- holds.
  pub page_of-next_cursor_iff :
      1 ≤ limit
      → limit < max_page_size
      → ((page_of query limit rows).next_cursor ≢ none) ↔ (limit < length (matching query rows))
  unfolding page_of
  page_of-next_cursor_iff low high =
      let found = list_contents (record query { limit = some (limit + 1) }) rows in
      let size = length-list_contents query rows (limit + 1) in
      let cut = length-take limit found in
      elim (Bool-cases (ltb (length (take limit found)) (length found))) [
        | inl e ↦
            let (c, there) = cursor_of-some (take limit found) (ground (arith, cut, e)) in
            (λ _. ground (arith, cut, size, e), λ _ gone. ground (arith, e, there, gone))
        | inr e ↦ (
          λ some_there. absurd (some_there (rw e refl)),
          λ more. absurd (ground (arith, cut, size, e, more)),
        )
      ]

  -- A page of the largest size never names a next cursor, however many rows match: the row more
  -- that the route asks for is beyond what the listing returns.
  pub page_of-no_cursor : limit ≡ max_page_size → (page_of query limit rows).next_cursor ≡ none
  unfolding page_of
  page_of-no_cursor full =
      let found = list_contents (record query { limit = some (limit + 1) }) rows in
      let size = length-list_contents query rows (limit + 1) in
      let cut = length-take limit found in
      let all_kept : ltb (length (take limit found)) (length found) ≡ false =
        ground (arith, cut, size, full) in
      rw all_kept refl
