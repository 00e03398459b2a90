-- ===== src/Cache/Names.antt =====
-- packages/cache/src/store.ts: the names that the keys have in Valkey. `page:<key>:tags` would also
-- be the name of a page whose key ends in `:tags`; the keys of the model are those that do not.
use Prim.Native.Char.{Char, code}
use presslabz.Base.{
  ℕ, suc, ◌+◌, ◌≡◌, refl, sym, ◌∙◌, ap, subst, true, false, String, str_eq, str_eq_refl, arith,
}
use presslabz.Cache.Valkey.{Key, page_key, page_tags, tag_key, stamp_key, same_key, ends_in_tags}

-- One text behind another, character by character.
abbrev pub joined : String → String → String
joined String.[] b = b
joined (String.◌∷◌ c a) b = String.◌∷◌ c (joined a b)

-- Behind the namespace, which is the same in every name.
abbrev pub key_name : Key → String
key_name (page_key key) = joined "page:" key
key_name (page_tags key) = joined "page:" (joined key ":tags")
key_name (tag_key tag) = joined "tag:" tag
key_name (stamp_key tag) = joined "purged:" tag

abbrev size : String → ℕ
size String.[] = 0
size (String.◌∷◌ c s) = suc (size s)

size-joined : (a b : String) → size (joined a b) ≡ size a + size b
size-joined String.[] b = omega arith
size-joined (String.◌∷◌ c a) b = let h = size-joined a b in omega (arith, h)

ends_in_tags-joined : (a : String) → ends_in_tags (joined a ":tags") ≡ true
ends_in_tags-joined String.[] = refl
ends_in_tags-joined (String.◌∷◌ c a) = ground (arith, ends_in_tags-joined a)

abbrev rest_of : String → String
rest_of String.[] = String.[]
rest_of (String.◌∷◌ c s) = s

abbrev first_or : Char → String → Char
first_or d String.[] = d
first_or d (String.◌∷◌ c s) = c

abbrev drop_five : String → String
drop_five s = rest_of (rest_of (rest_of (rest_of (rest_of s))))

joined-cancel : (a b x : String) → joined a x ≡ joined b x → a ≡ b
joined-cancel String.[] String.[] x e = refl
joined-cancel String.[] (String.◌∷◌ d b) x e =
    let h = size-joined b x in
    let n : size x ≡ suc (size (joined b x)) = ap size e in absurd (omega (arith, h, n))
joined-cancel (String.◌∷◌ c a) String.[] x e =
    let h = size-joined a x in
    let n : suc (size (joined a x)) ≡ size x = ap size e in absurd (omega (arith, h, n))
joined-cancel (String.◌∷◌ c a) (String.◌∷◌ d b) x e =
    let same : a ≡ b = joined-cancel a b x (ap rest_of e) in
    let first : c ≡ d = ap (first_or c) e in
    ap (λ s. String.◌∷◌ c s) same ∙ ap (λ k. String.◌∷◌ k b) first

-- The code of the first letter, and of the second.
abbrev first_code : String → ℕ
first_code s = code (first_or "?" s)

abbrev second_code : String → ℕ
second_code s = first_code (rest_of s)

-- A page that is named like a list of tags ends in `:tags`.
no_list : (a b : String) → ends_in_tags a ≡ false → a ≡ joined b ":tags" → ⊥
no_list a b plain e =
    let ends : ends_in_tags a ≡ true = ap ends_in_tags e ∙ ends_in_tags-joined b in
    let both : true ≡ false = sym ends ∙ plain in cc

equal_text : (a b : String) → a ≡ b → str_eq a b ≡ true
equal_text a b e = subst (λ x. str_eq a x ≡ true) e (str_eq_refl a)

-- The page keys of the model.
abbrev pub IsPlain : Key → Type 0
IsPlain (page_key key) = ends_in_tags key ≡ false
IsPlain (page_tags key) = ends_in_tags key ≡ false
IsPlain (tag_key tag) = Unit
IsPlain (stamp_key tag) = Unit

-- Keys of pages that do not end in `:tags` have one name only if they are the same key of the
-- same kind.
pub key_name-same_key :
    (a b : Key) → IsPlain a → IsPlain b → key_name a ≡ key_name b → same_key a b ≡ true
key_name-same_key (page_key a) (page_key b) p q e = equal_text a b (ap drop_five e)
key_name-same_key (page_key a) (page_tags b) p q e = absurd (no_list a b p (ap drop_five e))
key_name-same_key (page_key a) (tag_key b) p q e = absurd (ground (arith, ap first_code e))
key_name-same_key (page_key a) (stamp_key b) p q e = absurd (ground (arith, ap second_code e))
key_name-same_key (page_tags a) (page_key b) p q e = absurd (no_list b a q (ap drop_five (sym e)))
key_name-same_key (page_tags a) (page_tags b) p q e =
    equal_text a b (joined-cancel a b ":tags" (ap drop_five e))
key_name-same_key (page_tags a) (tag_key b) p q e = absurd (ground (arith, ap first_code e))
key_name-same_key (page_tags a) (stamp_key b) p q e = absurd (ground (arith, ap second_code e))
key_name-same_key (tag_key a) (page_key b) p q e = absurd (ground (arith, ap first_code e))
key_name-same_key (tag_key a) (page_tags b) p q e = absurd (ground (arith, ap first_code e))
key_name-same_key (tag_key a) (tag_key b) p q e =
    equal_text a b (ap (λ s. rest_of (rest_of (rest_of (rest_of s)))) e)
key_name-same_key (tag_key a) (stamp_key b) p q e = absurd (ground (arith, ap first_code e))
key_name-same_key (stamp_key a) (page_key b) p q e = absurd (ground (arith, ap second_code e))
key_name-same_key (stamp_key a) (page_tags b) p q e = absurd (ground (arith, ap second_code e))
key_name-same_key (stamp_key a) (tag_key b) p q e = absurd (ground (arith, ap first_code e))
key_name-same_key (stamp_key a) (stamp_key b) p q e =
    equal_text a b (ap (λ s. rest_of (rest_of (drop_five s))) e)
