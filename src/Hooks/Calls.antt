-- ===== src/Hooks/Calls.antt =====
-- packages/core/src/hooks.ts: `emit` and `apply`. What a handler does is the answer that it gives
-- and, where the answer is a promise, the milliseconds after which the promise settles, if ever.
use presslabz.Base.{
  ℕ, ◌+◌, Option, none, some, List, [], ◌∷◌, ◌++◌, String, ltb, if◌then◌else◌, max,
}
use presslabz.Hooks.Registry.{Registration, Registrations, listed, by_priority}

pub data Settled (A : Type 0) : Type 0 where
  resolved : (a : A) → Settled A
  rejected : Settled A

pub data Work (A : Type 0) : Type 0 where
  at_once : (s : Settled A) → Work A
  promise : (after : Option ℕ) (s : Settled A) → Work A

pub data Kind : Type 0 where
  action filter : Kind

pub record HookFailure : Type 0 where
  pub hook : String
  pub label : String
  pub kind : Kind

-- The outcome, and the milliseconds that it took.
unfoldable pub with_timeout : {A : Type 0} → Work A → ℕ → Settled A × ℕ
with_timeout (at_once s) ms = (s, 0)
with_timeout (promise none s) ms = (rejected, ms)
with_timeout (promise (some after) s) ms = if ltb after ms then (s, after) else (rejected, ms)

abbrev pub action_failure : String → String → Settled Unit → List HookFailure
action_failure hook label (resolved a) = []
action_failure hook label rejected = record { hook = hook; label = label; kind = action } ∷ []

module _ {P : Type 0} (hook : String) (timeout_ms : ℕ) where
  -- The handlers run at the same time, so that all take as long as the slowest.
  unfoldable pub tell : P → List (Registration (P → Work Unit)) → List HookFailure × ℕ
  unfolding with_timeout
  tell payload [] = ([], 0)
  tell payload (r ∷ rs) =
      let told = with_timeout (r.handler payload) timeout_ms in
      let rest = tell payload rs in
      (action_failure hook r.label told.0 ++ rest.0, max told.1 rest.1)

  unfoldable pub emit : P → Registrations (P → Work Unit) → List HookFailure × ℕ
  unfolding tell by_priority
  emit payload actions = tell payload (by_priority (listed (actions.by_name hook)))

module _ {V : Type 0} where
  -- The value after one filter, which stands where the filter failed or returned nothing.
  abbrev pub next_value : Settled (Option V) → V → V
  next_value (resolved (some next)) current = next
  next_value (resolved none) current = current
  next_value rejected current = current

  abbrev pub filter_failure : String → String → Settled (Option V) → List HookFailure
  filter_failure hook label (resolved (some next)) = []
  filter_failure hook label (resolved none) =
      record { hook = hook; label = label; kind = filter } ∷ []
  filter_failure hook label rejected = record { hook = hook; label = label; kind = filter } ∷ []

module _ {V : Type 0} (hook : String) (timeout_ms : ℕ) where
  -- The loop of `apply`: the value, the failures that it reported and the time that it took.
  unfoldable pub pass_through :
      V → List (Registration (V → Work (Option V))) → V × List HookFailure × ℕ
  unfolding with_timeout
  pass_through current [] = (current, [], 0)
  pass_through current (r ∷ rs) =
      let ran = with_timeout (r.handler current) timeout_ms in
      let (out, failures, took) = pass_through (next_value ran.0 current) rs in
      (out, filter_failure hook r.label ran.0 ++ failures, ran.1 + took)

  unfoldable pub apply : V → Registrations (V → Work (Option V)) → V × List HookFailure × ℕ
  unfolding pass_through by_priority
  apply value filters = pass_through value (by_priority (listed (filters.by_name hook)))
