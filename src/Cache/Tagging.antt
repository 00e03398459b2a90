-- ===== src/Cache/Tagging.antt =====
-- packages/cache/src/store.ts: the list of tags that a call sends, `[...new Set(tags)].sort()`.
use presslabz.Base.{
  str_eq_eq, ◌≡◌, refl, sym, subst, all, arith, inl, inr, Bool, true, List, [], ◌∷◌, String, str_eq,
  any, In, here, there, any-In, Bool-cases, ◌⊎◌, ◌∙◌,
}
use presslabz.Cache.Entries.{In_head}
use presslabz.Cache.Store.{insert_tag, unique_tags, text_le}

In-insert_tag : (x t : String) (ts : List String) → (x ≡ t) ⊎ In x ts → In x (insert_tag t ts)
unfolding insert_tag
In-insert_tag x t [] (inl e) = subst (λ y. In x (y ∷ [])) e here
In-insert_tag x t [] (inr m) = elim m [ ]
In-insert_tag x t (u ∷ us) m = elim (Bool-cases (text_le t u)) [
  | inl e ↦ rw e (elim m [ inl d ↦ subst (λ y. In x (y ∷ u ∷ us)) d here | inr n ↦ there n ])
  | inr e ↦ rw e (elim m [
    | inl d ↦ there (In-insert_tag x t us (inl d))
    | inr n ↦ elim (In_head x u us n) [
      | inl n' ↦ there (In-insert_tag x t us (inr n'))
      | inr d ↦ subst (λ y. In x (y ∷ insert_tag t us)) d here
    ]
  ])
]

insert_tag-In : (x t : String) (ts : List String) → In x (insert_tag t ts) → (x ≡ t) ⊎ In x ts
unfolding insert_tag
insert_tag-In x t [] m = elim (In_head x t [] m) [ inl n ↦ inr n | inr e ↦ inl e ]
insert_tag-In x t (u ∷ us) m = elim (Bool-cases (text_le t u)) [
  | inl e ↦ elim (In_head x t (u ∷ us) (rw e at m)) [ inl n ↦ inr n | inr d ↦ inl d ]
  | inr e ↦ elim (In_head x u (insert_tag t us) (rw e at m)) [
    | inr d ↦ inr (subst (λ y. In x (y ∷ us)) d here)
    | inl n ↦ elim (insert_tag-In x t us n) [ inl d ↦ inl d | inr n' ↦ inr (there n') ]
  ]
]

pub In-unique_tags : (x : String) (ts : List String) → In x ts → In x (unique_tags ts)
unfolding unique_tags
In-unique_tags x [] m = elim m [ ]
In-unique_tags x (t ∷ ts) m = elim (Bool-cases (any (λ u. str_eq u t) ts)) [
  | inl e ↦ rw e (elim (In_head x t ts m) [
    | inl n ↦ In-unique_tags x ts n
    | inr d ↦
        let (y, n, same) = any-In (λ u. str_eq u t) ts e in
        In-unique_tags x ts (subst (λ z. In z ts) (str_eq_eq y t same ∙ sym d) n)
  ])
  | inr e ↦ rw e (
      In-insert_tag x t (unique_tags ts)
        (elim (In_head x t ts m) [ inl n ↦ inr (In-unique_tags x ts n) | inr d ↦ inl d ]))
]

pub unique_tags-In : (x : String) (ts : List String) → In x (unique_tags ts) → In x ts
unfolding unique_tags
unique_tags-In x [] m = m
unique_tags-In x (t ∷ ts) m = elim (Bool-cases (any (λ u. str_eq u t) ts)) [
  | inl e ↦ there (unique_tags-In x ts (rw e at m))
  | inr e ↦ elim (insert_tag-In x t (unique_tags ts) (rw e at m)) [
    | inl d ↦ subst (λ y. In x (y ∷ ts)) d here
    | inr n ↦ there (unique_tags-In x ts n)
  ]
]

all-In :
    (p : String → Bool) (x : String) (ts : List String) → all p ts ≡ true → In x ts → p x ≡ true
all-In p x ts h here = ground arith
all-In p x ts h (there m) = all-In p x _ (ground arith) m

In-all :
    (p : String → Bool) (ts : List String) → ((x : String) → In x ts → p x ≡ true) → all p ts ≡ true
In-all p [] h = refl
In-all p (t ∷ ts) h = rw (h t here) (In-all p ts (λ x m. h x (there m)))

pub all-unique_tags :
    (p : String → Bool) (ts : List String) → all p ts ≡ true → all p (unique_tags ts) ≡ true
all-unique_tags p ts h = In-all p (unique_tags ts) (λ x m. all-In p x ts h (unique_tags-In x ts m))
