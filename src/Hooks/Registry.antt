-- ===== src/Hooks/Registry.antt =====
-- packages/core/src/hooks.ts: registrations, and the order that handlers run in. Priorities are
-- natural numbers here; the maps from names are functions.
use presslabz.Base.{
  ℕ, suc, Bool, ◌&&◌, ◌||◌, Option, none, some, List, [], ◌∷◌, ◌++◌, String, str_eq, ltb, ◌==◌,
  if◌then◌else◌,
}

pub record HandlerOptions : Type 0 where
  pub priority : Option ℕ
  pub label : Option String

pub record Registration (H : Type 0) : Type 0 where
  pub handler : H
  pub priority : ℕ
  pub label : String
  pub order : ℕ

-- `createHooks`: the registrations of each name, and the counter that numbers them.
pub record Registrations (H : Type 0) : Type 0 where
  pub by_name : String → Option (List (Registration H))
  pub counter : ℕ

abbrev or_else : {A : Type 0} → Option A → A → A
or_else none d = d
or_else (some a) d = a

-- `into.get(name) ?? []`
abbrev pub listed : {H : Type 0} → Option (List (Registration H)) → List (Registration H)
listed none = []
listed (some rs) = rs

module _ {H : Type 0} where
  unfoldable pub registration_of : ℕ → String → H → HandlerOptions → Registration H
  registration_of counter name handler options = record {
    handler = handler;
    priority = or_else options.priority 10;
    label = or_else options.label name;
    order = counter;
  }

  abbrev with_name :
      String
      → List (Registration H)
      → (String → Option (List (Registration H)))
      → String
      → Option (List (Registration H))
  with_name name rs by_name other = if str_eq name other then some rs else by_name other

  -- `add`, without the function that it returns.
  unfoldable pub add : String → H → HandlerOptions → Registrations H → Registrations H
  unfolding registration_of
  add name handler options into = record {
    by_name =
        with_name name
          (listed (into.by_name name) ++ registration_of into.counter name handler options ∷ [])
          into.by_name;
    counter = suc into.counter;
  }

  -- `list.splice(list.indexOf(registration), 1)`; a registration is told by its number.
  unfoldable pub splice_out : ℕ → List (Registration H) → List (Registration H)
  splice_out order [] = []
  splice_out order (r ∷ rs) =
      let rest = splice_out order rs in if r.order == order then rs else r ∷ rest

  abbrev unlist : String → ℕ → Registrations H → Option (List (Registration H)) → Registrations H
  unlist name order into none = into
  unlist name order into (some rs) = record into {
    by_name = with_name name (splice_out order rs) into.by_name;
  }

  -- The function that `add` returns, of the registration with this number.
  unfoldable pub unregister : String → ℕ → Registrations H → Registrations H
  unfolding splice_out
  unregister name order into = unlist name order into (into.by_name name)

  -- `a.priority - b.priority || a.order - b.order`, as a test that `a` is the earlier one.
  abbrev pub comes_before : Registration H → Registration H → Bool
  comes_before a b = ltb a.priority b.priority || (a.priority == b.priority && ltb a.order b.order)

  unfoldable pub insert_by_priority : Registration H → List (Registration H) → List (Registration H)
  insert_by_priority r [] = r ∷ []
  insert_by_priority r (x ∷ xs) =
      let rest = insert_by_priority r xs in if comes_before x r then x ∷ rest else r ∷ x ∷ xs

  unfoldable pub by_priority : List (Registration H) → List (Registration H)
  unfolding insert_by_priority
  by_priority [] = []
  by_priority (r ∷ rs) = insert_by_priority r (by_priority rs)
