-- ===== src/Hooks/Filtering.antt =====
-- packages/core/src/hooks.ts: a handler cannot blank a value or hold up a call, and can be taken out.
use presslabz.Base.{
  ℕ, ◌*◌, ◌≤◌, ◌<◌, ◌≡◌, refl, ◌∙◌, ap, subst, inl, inr, Bool, true, false, Option, none, some,
  List, [], ◌∷◌, ◌++◌, String, str_eq_refl, str_eq_eq, str_eq, ◌==◌, ltb, filter, length, In, here,
  there, Bool-cases, arith,
}
use presslabz.Hooks.Registry.{
  Registration, Registrations, HandlerOptions, listed, registration_of, add, splice_out, unregister,
  by_priority,
}
use presslabz.Hooks.Calls.{
  Settled, resolved, rejected, Work, with_timeout, next_value, pass_through, apply, tell, emit,
  promise, at_once,
}
use presslabz.Hooks.Order.{by_priority-filter, by_priority-In, length-by_priority}

with_timeout-le : {A : Type 0} (w : Work A) (ms : ℕ) → (with_timeout w ms).1 ≤ ms
unfolding with_timeout
with_timeout-le (at_once s) ms = omega arith
with_timeout-le (promise none s) ms = omega arith
with_timeout-le (promise (some after) s) ms = ground arith

-- A run of a filter that leaves no value: it throws or rejects, returns nothing, or has not settled
-- within the time that it has.
pub data Fails {V : Type 0} (timeout_ms : ℕ) : Work (Option V) → Type 0 where
  throws_itself : {w : Work (Option V)} → w ≡ at_once rejected → Fails timeout_ms w
  rejects :
      {w : Work (Option V)} (after : Option ℕ) → w ≡ promise after rejected → Fails timeout_ms w
  returns_nothing : {w : Work (Option V)} → w ≡ at_once (resolved none) → Fails timeout_ms w
  resolves_nothing :
      {w : Work (Option V)} (after : Option ℕ)
      → w ≡ promise after (resolved none)
      → Fails timeout_ms w
  never : {w : Work (Option V)} {s : Settled (Option V)} → w ≡ promise none s → Fails timeout_ms w
  late :
      {w : Work (Option V)} {s : Settled (Option V)} (after : ℕ)
      → w ≡ promise (some after) s
      → timeout_ms ≤ after
      → Fails timeout_ms w

-- Whatever it is given, the handler fails.
abbrev pub IsBroken : {V : Type 0} → ℕ → Registration (V → Work (Option V)) → Type 0
IsBroken {V} timeout_ms r = (v : V) → Fails timeout_ms (r.handler v)

kept_value :
    {V : Type 0} (ms : ℕ) (w : Work (Option V)) (v : V)
    → Fails ms w
    → next_value ((with_timeout w ms).0) v ≡ v
unfolding with_timeout
kept_value ms w v (throws_itself e) = rw e refl
kept_value ms w v (rejects none e) = rw e refl
kept_value ms w v (rejects (some after) e) = elim (Bool-cases (ltb after ms)) [
  | inl h ↦ rw (e, h) refl
  | inr h ↦ rw (e, h) refl
]
kept_value ms w v (returns_nothing e) = rw e refl
kept_value ms w v (resolves_nothing none e) = rw e refl
kept_value ms w v (resolves_nothing (some after) e) = elim (Bool-cases (ltb after ms)) [
  | inl h ↦ rw (e, h) refl
  | inr h ↦ rw (e, h) refl
]
kept_value ms w v (never e) = rw e refl
kept_value ms w v (late after e b) =
    let over : ltb after ms ≡ false = ground (arith, b) in rw (e, over) refl

module _ {V : Type 0} (hook : String) (timeout_ms : ℕ) where
  pass_through-filter :
      (p : Registration (V → Work (Option V)) → Bool)
      (rs : List (Registration (V → Work (Option V)))) (v : V)
      → ((r : Registration (V → Work (Option V))) → In r rs → p r ≡ false → IsBroken timeout_ms r)
      → (pass_through hook timeout_ms v (filter p rs)).0 ≡ (pass_through hook timeout_ms v rs).0
  unfolding pass_through
  pass_through-filter p [] v broken = refl
  pass_through-filter p (r ∷ rs) v broken = elim (Bool-cases (p r)) [
    | inl e ↦ rw e (
        pass_through-filter p rs (next_value ((with_timeout (r.handler v) timeout_ms).0) v)
          (λ x m. broken x (there m)))
    | inr e ↦ rw e (
        rw (kept_value timeout_ms (r.handler v) v (broken r here e v))
          (pass_through-filter p rs v (λ x m. broken x (there m))))
  ]

  -- Handlers of which every run throws, rejects, is late or returns nothing do not change what `apply` returns: it is the value that the others
  -- give without them.
  pub apply-filter :
      (p : Registration (V → Work (Option V)) → Bool)
      (all_of some_of : Registrations (V → Work (Option V))) (v : V)
      → ((r : Registration (V → Work (Option V)))
          → In r (listed (all_of.by_name hook))
          → p r ≡ false
          → IsBroken timeout_ms r)
      → listed (some_of.by_name hook) ≡ filter p (listed (all_of.by_name hook))
      → (apply hook timeout_ms v some_of).0 ≡ (apply hook timeout_ms v all_of).0
  unfolding apply
  apply-filter p all_of some_of v broken e =
      ap (λ rs. (pass_through hook timeout_ms v rs).0)
        (ap by_priority e ∙ by_priority-filter p (listed (all_of.by_name hook)))
      ∙ pass_through-filter p (by_priority (listed (all_of.by_name hook))) v
          (λ r m. broken r (by_priority-In r (listed (all_of.by_name hook)) m))

  pass_through-le :
      (rs : List (Registration (V → Work (Option V)))) (v : V)
      → (pass_through hook timeout_ms v rs).2 ≤ length rs * timeout_ms
  unfolding pass_through
  pass_through-le [] v = omega arith
  pass_through-le (r ∷ rs) v =
      let ran = with_timeout (r.handler v) timeout_ms in
      let first = with_timeout-le (r.handler v) timeout_ms in
      let later = pass_through-le rs (next_value ran.0 v) in omega (arith, first, later)

  pub apply-le :
      (filters : Registrations (V → Work (Option V))) (v : V)
      → (apply hook timeout_ms v filters).2 ≤ length (listed (filters.by_name hook)) * timeout_ms
  unfolding apply
  apply-le filters v =
      subst (λ n. (apply hook timeout_ms v filters).2 ≤ n * timeout_ms)
        (length-by_priority (listed (filters.by_name hook)))
        (pass_through-le (by_priority (listed (filters.by_name hook))) v)

module _ {P : Type 0} (hook : String) (timeout_ms : ℕ) where
  tell-le :
      (payload : P) (rs : List (Registration (P → Work Unit)))
      → (tell hook timeout_ms payload rs).1 ≤ timeout_ms
  unfolding tell
  tell-le payload [] = omega arith
  tell-le payload (r ∷ rs) =
      let first = with_timeout-le (r.handler payload) timeout_ms in
      let later = tell-le payload rs in ground (arith, first, later)

  pub emit-le :
      (payload : P) (actions : Registrations (P → Work Unit))
      → (emit hook timeout_ms payload actions).1 ≤ timeout_ms
  unfolding emit
  emit-le payload actions = tell-le payload (by_priority (listed (actions.by_name hook)))

module _ {H : Type 0} where
  -- Each registration's number is below the counter.
  abbrev pub IsNumbered : Registrations H → Type 0
  IsNumbered into =
      (name : String) (r : Registration H)
      → In r (listed (into.by_name name))
      → r.order < into.counter

  splice_out-append :
      (order : ℕ) (rs : List (Registration H)) (r : Registration H)
      → ((x : Registration H) → In x rs → x.order < order)
      → r.order ≡ order
      → splice_out order (rs ++ r ∷ []) ≡ rs
  unfolding splice_out
  splice_out-append order [] r h e =
      let same : r.order == order ≡ true = ground (arith, e) in rw same refl
  splice_out-append order (x ∷ rs) r h e =
      let lower = h x here in
      let other : x.order == order ≡ false = ground (arith, lower) in
      rw other (ap (λ xs. x ∷ xs) (splice_out-append order rs r (λ y m. h y (there m)) e))

  -- Taking out the handler that was registered last leaves every name's handlers as before it.
  pub unregister-add :
      (name : String) (handler : H) (options : HandlerOptions) (into : Registrations H)
      → IsNumbered into
      → (other : String)
      → listed ((unregister name into.counter (add name handler options into)).by_name other)
        ≡ listed (into.by_name other)
  unfolding add unregister registration_of
  unregister-add name handler options into numbered other =
      let added = registration_of into.counter name handler options in
      let taken =
        splice_out-append into.counter (listed (into.by_name name)) added (numbered name) refl in
      elim (Bool-cases (str_eq name other)) [
        | inl e ↦
            rw (str_eq_refl name)
              (rw e (taken ∙ ap (λ n. listed (into.by_name n)) (str_eq_eq name other e)))
        | inr e ↦ rw (str_eq_refl name) (rw e refl)
      ]
