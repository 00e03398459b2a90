-- ===== src/Access/Registry.antt =====
-- packages/core/src/content-types.ts: the registry of content types, built once from a list.
use presslabz.Base.{
  ◌≡◌, refl, ◌↔◌, Bool, false, Option, none, some, List, [], ◌∷◌, ◌++◌, String, str_eq, arith, find,
  In, find-none, find-none_intro, subst,
}
use mathlib.Core.List.{append-nil, append_assoc}
use presslabz.Access.Policy.{AccessTable}

-- A content type, as the registry and the policy see it.
pub record ContentType : Type 0 where
  pub name : String
  pub hierarchical : Bool
  pub base_path : String
  pub access : AccessTable

-- The two ways in which a list of types is refused, with the names that the error carries.
pub data Registered : Type 0 where
  registry : List ContentType → Registered
  registered_twice : (name : String) → Registered
  both_claim : (taken name base_path : String) → Registered

-- The maps `byName` and `byBasePath` are the types registered so far, searched by key.
unfoldable pub named : List ContentType → String → Option ContentType
named types name = find (λ t. str_eq t.name name) types

unfoldable pub at_base_path : List ContentType → String → Option ContentType
at_base_path types path = find (λ t. str_eq t.base_path path) types

-- One round of the loop of `createContentTypeRegistry`.
abbrev register_next :
    Option ContentType → Option ContentType → List ContentType → ContentType → Registered
register_next (some other) claimed so_far type = registered_twice type.name
register_next none (some other) so_far type = both_claim other.name type.name type.base_path
register_next none none so_far type = registry (so_far ++ type ∷ [])

unfoldable pub register : List ContentType → ContentType → Registered
unfolding named at_base_path
register so_far type =
    register_next (named so_far type.name) (at_base_path so_far type.base_path) so_far type

abbrev then_register : Registered → (List ContentType → Registered) → Registered
then_register (registry types) k = k types
then_register (registered_twice name) k = registered_twice name
then_register (both_claim taken name path) k = both_claim taken name path

unfoldable pub register_all : List ContentType → List ContentType → Registered
unfolding register
register_all so_far [] = registry so_far
register_all so_far (type ∷ types) =
    then_register (register so_far type) (λ next. register_all next types)

unfoldable pub create_content_type_registry : List ContentType → Registered
unfolding register_all
create_content_type_registry types = register_all [] types

-- Neither the name nor the base path of `t` is taken.
abbrev pub Fresh : List ContentType → ContentType → Type 0
Fresh so_far t =
    (other : ContentType)
    → In other so_far
    → (str_eq other.name t.name ≡ false) × (str_eq other.base_path t.base_path ≡ false)

-- Each type is fresh among those before it.
abbrev pub AllFresh : List ContentType → List ContentType → Type 0
AllFresh so_far [] = Unit
AllFresh so_far (t ∷ ts) = Fresh so_far t × AllFresh (so_far ++ t ∷ []) ts

module _ (so_far : List ContentType) (t : ContentType) where
  fresh_of_lookups :
      named so_far t.name ≡ none → at_base_path so_far t.base_path ≡ none → Fresh so_far t
  unfolding named at_base_path
  fresh_of_lookups e e' other m = (
    find-none (λ o. str_eq o.name t.name) e m,
    find-none (λ o. str_eq o.base_path t.base_path) e' m,
  )

  lookups_of_fresh :
      Fresh so_far t → (named so_far t.name ≡ none) × (at_base_path so_far t.base_path ≡ none)
  unfolding named at_base_path
  lookups_of_fresh fresh = (
    find-none_intro (λ o. str_eq o.name t.name) so_far (λ o m. (fresh o m).0),
    find-none_intro (λ o. str_eq o.base_path t.base_path) so_far (λ o m. (fresh o m).1),
  )

  register_next_cases :
      (a b : Option ContentType) (result : List ContentType)
      → register_next a b so_far t ≡ registry result
      → (a ≡ none) × (b ≡ none) × (result ≡ so_far ++ t ∷ [])
  register_next_cases none none result e = (refl, refl, ground arith)
  register_next_cases none (some o) result e = absurd (ground arith)
  register_next_cases (some o) b result e = absurd (ground arith)

  register_cases :
      (result : List ContentType)
      → register so_far t ≡ registry result
      → Fresh so_far t × (result ≡ so_far ++ t ∷ [])
  unfolding register
  register_cases result e =
      let (a, b, same) = register_next_cases _ _ result e in (fresh_of_lookups a b, same)

  register_fresh : Fresh so_far t → register so_far t ≡ registry (so_far ++ t ∷ [])
  unfolding register
  register_fresh fresh = let (a, b) = lookups_of_fresh fresh in rw (a, b)

then_register-eq-registry :
    (r : Registered) (k : List ContentType → Registered) (result : List ContentType)
    → then_register r k ≡ registry result
    → (next : List ContentType) × (r ≡ registry next) × (k next ≡ registry result)
then_register-eq-registry (registry next) k result e = (next, refl, e)
then_register-eq-registry (registered_twice n) k result e = absurd (ground arith)
then_register-eq-registry (both_claim t n p) k result e = absurd (ground arith)

register_all_sound :
    (so_far types result : List ContentType)
    → register_all so_far types ≡ registry result
    → AllFresh so_far types × (result ≡ so_far ++ types)
unfolding register_all
register_all_sound so_far [] result e = (tt, ground (arith, append-nil so_far))
register_all_sound so_far (t ∷ ts) result e =
    let (next, now, later) = then_register-eq-registry _ _ result e in
    let (fresh, same) = register_cases so_far t next now in
    let (rest, whole) = register_all_sound next ts result later in
    (
      (fresh, subst (λ l. AllFresh l ts) same rest),
      rw (whole, same) (append_assoc so_far (t ∷ []) ts),
    )

register_all_complete :
    (so_far types : List ContentType)
    → AllFresh so_far types
    → register_all so_far types ≡ registry (so_far ++ types)
unfolding register_all
register_all_complete so_far [] fresh = rw append-nil
register_all_complete so_far (t ∷ ts) (now, later) =
    rw
      (register_fresh so_far t now, register_all_complete (so_far ++ t ∷ []) ts later, append_assoc)

-- A registry is built exactly from a list in which no type has the name or the base path of one
-- before it, and then holds those types in their order.
pub create_content_type_registry_iff :
    (types result : List ContentType)
    → (create_content_type_registry types ≡ registry result)
      ↔ (AllFresh [] types × (result ≡ types))
unfolding create_content_type_registry
create_content_type_registry_iff types result = (
  register_all_sound [] types result,
  λ (fresh, same). rw same (register_all_complete [] types fresh),
)
