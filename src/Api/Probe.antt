-- ===== src/Api/Probe.antt =====
-- apps/api/src/health/probe.ts: `createProbe`, whose checks never pile up. A check is named by its
-- number; the settling of a check and the end of a caller's budget are events.
pub mod Flight
use presslabz.Base.{
  ℕ, suc, ◌+◌, ◌≡◌, refl, sym, ◌∙◌, ap, subst, inl, inr, Bool, true, false, not, Option, none, some,
  List, [], ◌∷◌, ◌++◌, ◌==◌, if◌then◌else◌, filter, length, length-append, All, Bool-cases, arith,
}

pub data ProbeResult : Type 0 where
  up down timed_out : ProbeResult

-- A call of `run` that awaits a check.
pub record Caller : Type 0 where
  pub name : ℕ
  pub attempt : ℕ

-- `outstanding` are the checks that were started and have not settled.
pub record Probe : Type 0 where
  pub pending : Option ℕ
  pub started : ℕ
  pub outstanding : List ℕ
  pub callers : ℕ
  pub awaiting : List Caller
  pub answers : List (ℕ × ProbeResult)

pub data Event : Type 0 where
  called : Event
  settled : (attempt : ℕ) (fulfilled : Bool) → Event
  budget_over : (name : ℕ) → Event

abbrev pub create_probe : Probe
create_probe = record {
  pending = none;
  started = 0;
  outstanding = [];
  callers = 0;
  awaiting = [];
  answers = [];
}

-- `pending ?? begin()`
abbrev pub await : Option ℕ → Probe → Probe
await (some attempt) p = record p {
  callers = suc p.callers;
  awaiting = record { name = p.callers; attempt = attempt } ∷ p.awaiting;
}
await none p = record p {
  pending = some p.started;
  started = suc p.started;
  outstanding = p.started ∷ p.outstanding;
  callers = suc p.callers;
  awaiting = record { name = p.callers; attempt = p.started } ∷ p.awaiting;
}

unfoldable pub run : Probe → Probe
run p = await p.pending p

abbrev pub outcome : Bool → ProbeResult
outcome true = up
outcome false = down

abbrev pub freed : Option ℕ → ℕ → Option ℕ
freed none attempt = none
freed (some a) attempt = if a == attempt then none else some a

abbrev pub answered : (Caller → Bool) → ProbeResult → List Caller → List (ℕ × ProbeResult)
answered mine result [] = []
answered mine result (c ∷ cs) =
    let rest = answered mine result cs in if mine c then (c.name, result) ∷ rest else rest

-- The slot is free, and whoever still awaits the check has its outcome.
unfoldable pub settle : ℕ → Bool → Probe → Probe
settle attempt fulfilled p = record p {
  pending = freed p.pending attempt;
  outstanding = filter (λ a. not (a == attempt)) p.outstanding;
  awaiting = filter (λ c. not (c.attempt == attempt)) p.awaiting;
  answers = answered (λ c. c.attempt == attempt) (outcome fulfilled) p.awaiting ++ p.answers;
}

-- The timer wins: the caller has its answer, and the check goes on.
unfoldable pub give_up : ℕ → Probe → Probe
give_up name p = record p {
  awaiting = filter (λ c. not (c.name == name)) p.awaiting;
  answers = answered (λ c. c.name == name) timed_out p.awaiting ++ p.answers;
}

unfoldable pub step : Probe → Event → Probe
unfolding run settle give_up
step p called = run p
step p (settled attempt fulfilled) = settle attempt fulfilled p
step p (budget_over name) = give_up name p

unfoldable pub run_all : Probe → List Event → Probe
unfolding step
run_all p [] = p
run_all p (e ∷ es) = run_all (step p e) es
