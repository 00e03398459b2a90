-- ===== src/Cache/Kinds.antt =====
-- packages/cache/src/store.ts: each key of the namespace holds its own kind of value, so that no
-- command of a script meets a value of another type and fails.
pub mod Scripts
use presslabz.Base.{
  ℕ, ◌+◌, ◌*◌, ◌≡◌, sym, ◌∙◌, ap, subst, inl, inr, true, false, not, Option, none, some, List, [],
  ◌∷◌, String, str_eq, str_eq_eq, leb, if◌then◌else◌, In, In-filter, Bool-cases,
}
use presslabz.Cache.Valkey.{
  Key, page_key, page_tags, tag_key, stamp_key, same_key, ends_in_tags, payload, stamp, Entry,
  absent, holds, set_of, smembers, without, with_member, set_or_absent, without_member, kept_until,
  at_instant, Valkey,
}
use presslabz.Cache.Entries.{
  IsSetLike, IsSetLike-with_member, IsSetLike-without_member, IsSetLike-kept_until,
  smembers-kept_until, with_member-In_only,
}
use presslabz.Cache.Instants.{at_instant-IsSetLike}
use presslabz.Cache.Store.{
  leave_tags, join_tags, file_page, forget_page, forget_pages, purge_tag, purge_script,
}

abbrev pub IsPayload : Entry → Type 0
IsPayload absent = Unit
IsPayload (holds (payload text) until) = Unit
IsPayload (holds (stamp ms) until) = ⊥
IsPayload (set_of xs until) = ⊥

abbrev pub IsStamp : Entry → Type 0
IsStamp absent = Unit
IsStamp (holds (stamp ms) until) = Unit
IsStamp (holds (payload text) until) = ⊥
IsStamp (set_of xs until) = ⊥

-- The members are keys of pages that do not end in `:tags`.
abbrev pub HoldsPages : Entry → Type 0
HoldsPages e = (x : String) → In x (smembers e) → ends_in_tags x ≡ false

abbrev pub IsKind : Key → Entry → Type 0
IsKind (page_key key) e = IsPayload e
IsKind (page_tags key) e = IsSetLike e
IsKind (tag_key tag) e = IsSetLike e × HoldsPages e
IsKind (stamp_key tag) e = IsStamp e

pub same_key-eq : (a b : Key) → same_key a b ≡ true → a ≡ b
same_key-eq (page_key a) (page_key b) e = ap page_key (str_eq_eq a b e)
same_key-eq (page_tags a) (page_tags b) e = ap page_tags (str_eq_eq a b e)
same_key-eq (tag_key a) (tag_key b) e = ap tag_key (str_eq_eq a b e)
same_key-eq (stamp_key a) (stamp_key b) e = ap stamp_key (str_eq_eq a b e)
same_key-eq (page_key a) (page_tags b) e = absurd (cc)
same_key-eq (page_key a) (tag_key b) e = absurd (cc)
same_key-eq (page_key a) (stamp_key b) e = absurd (cc)
same_key-eq (page_tags a) (page_key b) e = absurd (cc)
same_key-eq (page_tags a) (tag_key b) e = absurd (cc)
same_key-eq (page_tags a) (stamp_key b) e = absurd (cc)
same_key-eq (tag_key a) (page_key b) e = absurd (cc)
same_key-eq (tag_key a) (page_tags b) e = absurd (cc)
same_key-eq (tag_key a) (stamp_key b) e = absurd (cc)
same_key-eq (stamp_key a) (page_key b) e = absurd (cc)
same_key-eq (stamp_key a) (page_tags b) e = absurd (cc)
same_key-eq (stamp_key a) (tag_key b) e = absurd (cc)

pub absent-IsKind : (k : Key) → IsKind k absent
absent-IsKind (page_key key) = tt
absent-IsKind (page_tags key) = tt
absent-IsKind (tag_key tag) = (tt, λ x m. elim m [ ])
absent-IsKind (stamp_key tag) = tt

pub HoldsPages-with_member :
    (x : String) (e : Entry) → ends_in_tags x ≡ false → HoldsPages e → HoldsPages (with_member x e)
HoldsPages-with_member x e plain h = λ y m. elim (with_member-In_only y x e m) [
  | inl n ↦ h y n
  | inr same ↦ subst (λ z. ends_in_tags z ≡ false) (sym same) plain
]

In-set_or_absent_from :
    (y : String) (xs : List String) (d : Option ℕ) → In y (smembers (set_or_absent xs d)) → In y xs
In-set_or_absent_from y [] d m = elim m [ ]
In-set_or_absent_from y (x ∷ xs) d m = m

pub HoldsPages-without_member :
    (x : String) (e : Entry) → HoldsPages e → HoldsPages (without_member x e)
HoldsPages-without_member x absent h = h
HoldsPages-without_member x (holds v u) h = h
HoldsPages-without_member x (set_of xs u) h = λ y m.
    let (n, _) =
      In-filter (λ z. not (str_eq z x)) xs (In-set_or_absent_from y (without x xs) u m) in
    h y n

pub HoldsPages-kept_until : (d : ℕ) (e : Entry) → HoldsPages e → HoldsPages (kept_until d e)
HoldsPages-kept_until d e h = λ y m. h y (subst (In y) (smembers-kept_until d e) m)

HoldsPages-at_instant : (t : ℕ) (e : Entry) → HoldsPages e → HoldsPages (at_instant t e)
HoldsPages-at_instant t absent h = h
HoldsPages-at_instant t (set_of xs none) h = h
HoldsPages-at_instant t (set_of xs (some d)) h = elim (Bool-cases (leb d t)) [
  | inl e ↦ rw e (λ y m. elim m [ ])
  | inr e ↦ rw e h
]
HoldsPages-at_instant t (holds v d) h = elim (Bool-cases (leb d t)) [
  | inl e ↦ rw e (λ y m. elim m [ ])
  | inr e ↦ rw e h
]

at_instant-IsPayload : (t : ℕ) (e : Entry) → IsPayload e → IsPayload (at_instant t e)
at_instant-IsPayload t absent h = tt
at_instant-IsPayload t (holds (payload text) d) h = elim (Bool-cases (leb d t)) [
  | inl e ↦ rw e tt
  | inr e ↦ rw e tt
]
at_instant-IsPayload t (holds (stamp ms) d) h = absurd h
at_instant-IsPayload t (set_of xs d) h = absurd h

at_instant-IsStamp : (t : ℕ) (e : Entry) → IsStamp e → IsStamp (at_instant t e)
at_instant-IsStamp t absent h = tt
at_instant-IsStamp t (holds (stamp ms) d) h = elim (Bool-cases (leb d t)) [
  | inl e ↦ rw e tt
  | inr e ↦ rw e tt
]
at_instant-IsStamp t (holds (payload text) d) h = absurd h
at_instant-IsStamp t (set_of xs d) h = absurd h

pub at_instant-IsKind : (t : ℕ) (k : Key) (e : Entry) → IsKind k e → IsKind k (at_instant t e)
at_instant-IsKind t (page_key key) e h = at_instant-IsPayload t e h
at_instant-IsKind t (page_tags key) e h = at_instant-IsSetLike t e h
at_instant-IsKind t (tag_key tag) e (h, p) =
    (at_instant-IsSetLike t e h, HoldsPages-at_instant t e p)
at_instant-IsKind t (stamp_key tag) e h = at_instant-IsStamp t e h
