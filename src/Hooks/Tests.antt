-- ===== src/Hooks/Tests.antt =====
-- Tests of the hooks: two filters that work, one that fails and one that never answers.
use presslabz.Base.{
  ℕ, ◌+◌, ◌<◌, ◌==◌, here, there, arith, ◌≡◌, refl, Bool, false, Option, none, some, List, [], ◌∷◌,
  String, ltb, filter, length, In,
}
use presslabz.Hooks.Registry.{Registration, Registrations, by_priority}
use presslabz.Hooks.Calls.{Work, at_once, promise, resolved, rejected, apply}
use presslabz.Hooks.Order.{IsOrdered, by_priority-IsSorted}
use presslabz.Hooks.Filtering.{apply-filter, IsBroken, throws_itself, never}

abbrev named : ℕ → ℕ → (ℕ → Work (Option ℕ)) → Registration (ℕ → Work (Option ℕ))
named priority order handler = record {
  handler = handler;
  priority = priority;
  label = "test";
  order = order;
}

abbrev plus_one : ℕ → Work (Option ℕ)
plus_one v = promise (some 3) (resolved (some (v + 1)))

abbrev throws : ℕ → Work (Option ℕ)
throws v = at_once rejected

abbrev hangs : ℕ → Work (Option ℕ)
hangs v = promise none rejected

abbrev three : List (Registration (ℕ → Work (Option ℕ)))
three = named 10 0 throws ∷ named 1 1 plus_one ∷ named 10 2 hangs ∷ []

abbrev under : List (Registration (ℕ → Work (Option ℕ))) → Registrations (ℕ → Work (Option ℕ))
under rs = record { by_name = λ name. some rs; counter = 3 }

abbrev comes_early : Registration (ℕ → Work (Option ℕ)) → Bool
comes_early r = ltb r.priority 5

by_priority-IsSorted_example :
    IsOrdered (by_priority three)
    × (length (filter comes_early (by_priority three)) ≡ length (filter comes_early three))
by_priority-IsSorted_example = by_priority-IsSorted comes_early three

abbrev works : Registration (ℕ → Work (Option ℕ)) → Bool
works r = r.order == 1

failing_filters :
    (r : Registration (ℕ → Work (Option ℕ))) → In r three → works r ≡ false → IsBroken 5000 r
failing_filters _ here e = λ v. throws_itself refl
failing_filters _ (there here) e = absurd (cc)
failing_filters _ (there (there here)) e = λ v. never refl
failing_filters _ (there (there (there m))) e = elim m [ ]

apply-filter_example :
    (apply "content:excerpt" 5000 4 (under (named 1 1 plus_one ∷ []))).0
    ≡ (apply "content:excerpt" 5000 4 (under three)).0
apply-filter_example =
    apply-filter "content:excerpt" 5000 works (under three) (under (named 1 1 plus_one ∷ [])) 4
      failing_filters refl

numbered_three : (name : String) (r : Registration (ℕ → Work (Option ℕ))) → In r three → r.order < 3
numbered_three name _ here = omega arith
numbered_three name _ (there here) = omega arith
numbered_three name _ (there (there here)) = omega arith
numbered_three name _ (there (there (there m))) = elim m [ ]
