-- ===== src/Api/Probe/Flight.antt =====
-- apps/api/src/health/probe.ts: at most one check is in flight, and nobody is forgotten.
use presslabz.Base.{
  ℕ, ◌+◌, ◌≡◌, refl, sym, ◌∙◌, ap, subst, inl, inr, Bool, true, false, suc, ◌++◌, ltb,
  if◌then◌else◌, not, Option, none, some, List, [], ◌∷◌, ◌==◌, filter, length, All, Bool-cases,
  arith,
}
use presslabz.Api.Probe.{
  ProbeResult, timed_out, Caller, Probe, Event, called, settled, budget_over, create_probe, await,
  run, outcome, freed, answered, settle, give_up, step, run_all,
}

abbrev in_slot : Option ℕ → List ℕ
in_slot none = []
in_slot (some a) = a ∷ []

abbrev Awaits : Option ℕ → List Caller → Type 0
Awaits none [] = Unit
Awaits none (c ∷ cs) = ⊥
Awaits (some a) cs = All (λ (c : Caller). c.attempt ≡ a) cs

-- How often the caller of this name awaits, and how often it was answered.
abbrev pub times_awaiting : ℕ → List Caller → ℕ
times_awaiting name cs = length (filter (λ (c : Caller). c.name == name) cs)

abbrev pub times_answered : ℕ → List (ℕ × ProbeResult) → ℕ
times_answered name as' = length (filter (λ (a : ℕ × ProbeResult). a.0 == name) as')

-- At most one check runs, the one in the slot; every caller that has no answer awaits it; and
-- every caller either awaits or has its answer, once, while nobody else does.
pub record IsSingleFlight (p : Probe) : Type 0 where
  pub slot : p.outstanding ≡ in_slot p.pending
  pub awaited : Awaits p.pending p.awaiting
  pub accounted :
      (name : ℕ)
      → times_awaiting name p.awaiting + times_answered name p.answers
        ≡ (if ltb name p.callers then 1 else 0)

times_answered-append :
    (name : ℕ) (xs ys : List (ℕ × ProbeResult))
    → times_answered name (xs ++ ys) ≡ times_answered name xs + times_answered name ys
times_answered-append name [] ys = omega arith
times_answered-append name (x ∷ xs) ys = elim (Bool-cases (x.0 == name)) [
  | inl e ↦ rw e (let h = times_answered-append name xs ys in omega (arith, h))
  | inr e ↦ rw e (times_answered-append name xs ys)
]

-- Those who leave are answered, each under its own name.
times-answered :
    (name : ℕ) (mine : Caller → Bool) (r : ProbeResult) (cs : List Caller)
    → times_awaiting name (filter (λ c. not (mine c)) cs) + times_answered name (answered mine r cs)
      ≡ times_awaiting name cs
times-answered name mine r [] = omega arith
times-answered name mine r (c ∷ cs) =
    let h = times-answered name mine r cs in
    elim (Bool-cases (mine c)) [
      | inl e ↦ elim (Bool-cases (c.name == name)) [
        | inl n ↦ rw e (rw n (omega (arith, h)))
        | inr n ↦ rw e (rw n h)
      ]
      | inr e ↦ elim (Bool-cases (c.name == name)) [
        | inl n ↦ rw e (rw n (omega (arith, h)))
        | inr n ↦ rw e (rw n h)
      ]
    ]

-- A caller that comes in has the next name.
times_awaiting-next :
    (name : ℕ) (p : Probe) (attempt : ℕ)
    → times_awaiting name p.awaiting + times_answered name p.answers
      ≡ (if ltb name p.callers then 1 else 0)
    → times_awaiting name (record { name = p.callers; attempt = attempt } ∷ p.awaiting)
        + times_answered name p.answers
      ≡ (if ltb name (suc p.callers) then 1 else 0)
times_awaiting-next name p attempt h = elim (Bool-cases (p.callers == name)) [
  | inl e ↦
      let before : ltb name p.callers ≡ false = ground (arith, e) in
      let after : ltb name (suc p.callers) ≡ true = ground (arith, e) in
      rw (e, after) (let n = rw before at h in omega (arith, n))
  | inr e ↦
      let same : ltb name (suc p.callers) ≡ ltb name p.callers = ground (arith, e) in rw (e, same) h
]

All-filtered :
    (P : Caller → Type 0) (keep : Caller → Bool) (cs : List Caller)
    → All P cs
    → All P (filter keep cs)
All-filtered P keep [] h = tt
All-filtered P keep (c ∷ cs) (a, b) = elim (Bool-cases (keep c)) [
  | inl e ↦ rw e (a, All-filtered P keep cs b)
  | inr e ↦ rw e (All-filtered P keep cs b)
]

Awaits-filter :
    (o : Option ℕ) (keep : Caller → Bool) (cs : List Caller)
    → Awaits o cs
    → Awaits o (filter keep cs)
Awaits-filter none keep [] h = tt
Awaits-filter none keep (c ∷ cs) h = absurd h
Awaits-filter (some a) keep cs h = All-filtered (λ (c : Caller). c.attempt ≡ a) keep cs h

none_left :
    (attempt : ℕ) (cs : List Caller)
    → All (λ (c : Caller). c.attempt ≡ attempt) cs
    → filter (λ c. not (c.attempt == attempt)) cs ≡ []
none_left attempt [] h = refl
none_left attempt (c ∷ cs) (a, b) =
    let mine : c.attempt == attempt ≡ true = ground (arith, a) in rw mine (none_left attempt cs b)

Awaits-none : (n : ℕ) (cs : List Caller) → Awaits none cs → All (λ (c : Caller). c.attempt ≡ n) cs
Awaits-none n [] h = tt
Awaits-none n (c ∷ cs) h = absurd h

-- A check of the number `n` that settles, where `o` is in the slot.
filter-in_slot :
    (o : Option ℕ) (n : ℕ) → filter (λ a. not (a == n)) (in_slot o) ≡ in_slot (freed o n)
filter-in_slot none n = refl
filter-in_slot (some a) n = elim (Bool-cases (a == n)) [ inl e ↦ rw e refl | inr e ↦ rw e refl ]

Awaits-freed :
    (o : Option ℕ) (n : ℕ) (cs : List Caller)
    → Awaits o cs
    → Awaits (freed o n) (filter (λ c. not (c.attempt == n)) cs)
Awaits-freed none n cs h = Awaits-filter none (λ c. not (c.attempt == n)) cs h
Awaits-freed (some a) n cs h = elim (Bool-cases (a == n)) [
  | inr e ↦ rw e (Awaits-filter (some a) (λ c. not (c.attempt == n)) cs h)
  | inl e ↦
      let same : a ≡ n = ground (arith, e) in
      let left = none_left n cs (subst (λ m. All (λ (c : Caller). c.attempt ≡ m) cs) same h) in
      rw e (subst (Awaits none) (sym left) tt)
]

module _ (p : Probe) (f : IsSingleFlight p) where
  await-IsSingleFlight : (o : Option ℕ) → p.pending ≡ o → IsSingleFlight (await o p)
  await-IsSingleFlight none e = record {
    slot = rw (f.slot) (rw e refl);
    awaited =
        (refl, Awaits-none p.started p.awaiting (subst (λ o. Awaits o p.awaiting) e f.awaited));
    accounted = λ name. times_awaiting-next name p p.started (f.accounted name);
  }
  await-IsSingleFlight (some a) e = record {
    slot = f.slot;
    awaited =
        subst (λ o. Awaits o (record { name = p.callers; attempt = a } ∷ p.awaiting)) (sym e)
          (refl, subst (λ o. Awaits o p.awaiting) e f.awaited);
    accounted = λ name. times_awaiting-next name p a (f.accounted name);
  }

  accounted_after :
      (mine : Caller → Bool) (r : ProbeResult) (name : ℕ)
      → times_awaiting name (filter (λ c. not (mine c)) p.awaiting)
          + times_answered name (answered mine r p.awaiting ++ p.answers)
        ≡ (if ltb name p.callers then 1 else 0)
  accounted_after mine r name =
      let left = times-answered name mine r p.awaiting in
      let both = times_answered-append name (answered mine r p.awaiting) p.answers in
      let total : times_awaiting name (filter (λ c. not (mine c)) p.awaiting)
            + times_answered name (answered mine r p.awaiting ++ p.answers)
          ≡ times_awaiting name p.awaiting + times_answered name p.answers =
        omega (arith, left, both) in
      total ∙ f.accounted name

  settle-IsSingleFlight :
      (attempt : ℕ) (fulfilled : Bool) → IsSingleFlight (settle attempt fulfilled p)
  unfolding settle
  settle-IsSingleFlight attempt fulfilled = record {
    slot = ap (filter (λ a. not (a == attempt))) f.slot ∙ filter-in_slot p.pending attempt;
    awaited = Awaits-freed p.pending attempt p.awaiting f.awaited;
    accounted = λ name. accounted_after (λ c. c.attempt == attempt) (outcome fulfilled) name;
  }

  give_up-IsSingleFlight : (name : ℕ) → IsSingleFlight (give_up name p)
  unfolding give_up
  give_up-IsSingleFlight name = record {
    slot = f.slot;
    awaited = Awaits-filter p.pending (λ c. not (c.name == name)) p.awaiting f.awaited;
    accounted = λ other. accounted_after (λ c. c.name == name) timed_out other;
  }

step-IsSingleFlight : (p : Probe) (e : Event) → IsSingleFlight p → IsSingleFlight (step p e)
unfolding step run
step-IsSingleFlight p called f = await-IsSingleFlight p f p.pending refl
step-IsSingleFlight p (settled attempt fulfilled) f = settle-IsSingleFlight p f attempt fulfilled
step-IsSingleFlight p (budget_over name) f = give_up-IsSingleFlight p f name

run_all-IsSingleFlight_from :
    (p : Probe) (es : List Event) → IsSingleFlight p → IsSingleFlight (run_all p es)
unfolding run_all
run_all-IsSingleFlight_from p [] f = f
run_all-IsSingleFlight_from p (e ∷ es) f =
    run_all-IsSingleFlight_from (step p e) es (step-IsSingleFlight p e f)

none_yet : (name : ℕ) → 0 + 0 ≡ (if ltb name 0 then 1 else 0)
none_yet name = ground arith

-- After any calls, settlements and timeouts, in any order: at most one check is in flight, and it
-- is the one in the slot; every call that has no answer yet awaits it; and each call either awaits
-- or has been answered, exactly once, and nobody else does.
pub run_all-IsSingleFlight : (es : List Event) → IsSingleFlight (run_all create_probe es)
run_all-IsSingleFlight es =
    run_all-IsSingleFlight_from create_probe es
      (record { slot = refl; awaited = tt; accounted = λ name. none_yet name })
