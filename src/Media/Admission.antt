-- ===== src/Media/Admission.antt =====
-- apps/api/src/media/admission.ts: the gate in front of uploads, how many may be in flight and
-- how many may wait. One value of `Gate` is what the closure of `createAdmission` holds: the
-- count, the queue, and beside them what the language keeps for it (each slot's `released`
-- variable, which timers and abort listeners are set, which promises have settled). Promises are
-- numbered in the order in which they were made. The wait time itself is the event that fires
-- the timer, so `waitMs` is checked and kept, and read by no other step.
pub mod Permits
pub mod Promises
pub mod Slots
pub mod Queue
pub mod Options
mod Tests
use presslabz.Base.{
  ℕ, zero, suc, ◌+◌, ◌-◌, ◌^◌, Bool, true, false, ◌||◌, Option, none, some, List, [], ◌∷◌, ◌++◌,
  String, ltb, leb, ◌==◌, if◌then◌else◌, length, any,
}

-- A JavaScript number, as `Number.isSafeInteger` sees it: a natural number, a negative integer,
-- or what is no integer (a fraction, `NaN`, an infinity).
pub data Number : Type 0 where
  natural negative : ℕ → Number
  not_integer : Number

abbrev pub max_safe_integer : ℕ
max_safe_integer = 2 ^ 53 - 1

abbrev pub max_timeout_ms : ℕ
max_timeout_ms = 2147483647

-- `RangeError`, with the option that it names.
pub data Checked : Type 0 where
  value : ℕ → Checked
  range_error : String → Checked

unfoldable pub integer_option : String → Number → ℕ → ℕ → Checked
integer_option name (natural n) low high =
    if ltb max_safe_integer n || (ltb n low || ltb high n) then range_error name else value n
integer_option name (negative n) low high = range_error name
integer_option name not_integer low high = range_error name

pub data Kind : Type 0 where
  saturated timeout : Kind

-- How a promise of `acquire` settles; a slot is named by its place in `released`.
pub data Outcome : Type 0 where
  granted : ℕ → Outcome
  capacity_error : Kind → Outcome
  aborted : Outcome

pub data Promise : Type 0 where
  settled : Outcome → Promise
  waiting : ℕ → Promise

pub record AdmissionOptions : Type 0 where
  pub max_active : Option Number
  pub max_waiting : Option Number
  pub wait_ms : Option Number

pub record Gate : Type 0 where
  pub max_active : ℕ
  pub max_waiting : ℕ
  pub wait_ms : ℕ
  pub active : ℕ
  pub queue : List ℕ
  -- the `released` variable of each slot granted so far
  pub released : List Bool
  -- waiters whose timer and abort listener are set
  pub armed : List ℕ
  pub next_waiter : ℕ
  pub outcomes : List (ℕ × Outcome)

pub data Created : Type 0 where
  created : Gate → Created
  range_error : String → Created

abbrev pub or_default : Option Number → ℕ → Number
or_default none d = natural d
or_default (some n) d = n

abbrev start : ℕ → ℕ → ℕ → Gate
start max_active max_waiting wait_ms = record {
  max_active = max_active;
  max_waiting = max_waiting;
  wait_ms = wait_ms;
  active = 0;
  queue = [];
  released = [];
  armed = [];
  next_waiter = 0;
  outcomes = [];
}

-- The options are checked in this order, and the first that fails is the one reported.
create_checked : Checked → Checked → Checked → Created
create_checked (value max_active) (value max_waiting) (value wait_ms) =
    created (start max_active max_waiting wait_ms)
create_checked (value max_active) (value max_waiting) (range_error name) = range_error name
create_checked (value max_active) (range_error name) wait_ms = range_error name
create_checked (range_error name) max_waiting wait_ms = range_error name

unfoldable pub create_admission : AdmissionOptions → Created
unfolding integer_option create_checked
create_admission options =
    create_checked (integer_option "maxActive" (or_default options.max_active 2) 1 max_safe_integer)
      (integer_option "maxWaiting" (or_default options.max_waiting 16) 0 max_safe_integer)
      (integer_option "waitMs" (or_default options.wait_ms 30000) 1 max_timeout_ms)

-- `queue.indexOf` and `queue.splice`: the first place only.
unfoldable pub erase : ℕ → List ℕ → List ℕ
erase w [] = []
erase w (x ∷ xs) = let rest = erase w xs in if x == w then xs else x ∷ rest

-- The flag of a slot; a slot that was never granted has no holder that could release it.
abbrev pub is_released : List Bool → ℕ → Bool
is_released [] i = true
is_released (b ∷ bs) zero = b
is_released (b ∷ bs) (suc i) = is_released bs i

abbrev pub mark_released : List Bool → ℕ → List Bool
mark_released [] i = []
mark_released (b ∷ bs) zero = true ∷ bs
mark_released (b ∷ bs) (suc i) = b ∷ mark_released bs i

-- `grant()`: a new slot, not released. Its name is the number of slots granted before it.
abbrev pub grant : Gate → ℕ × Gate
grant g = (length g.released, record g { released = g.released ++ false ∷ [] })

-- `settle()` of a waiter: its timer and its abort listener are cleared.
abbrev pub settle : ℕ → Gate → Gate
settle w g = record g { armed = erase w g.armed }

-- A promise resolves or rejects.
abbrev pub finish : ℕ → Outcome → Gate → Gate
finish w o g = record g { outcomes = (w, o) ∷ g.outcomes }

-- `release()` after its first line: the slot goes to the head of the queue, or is freed.
abbrev pub hand_over : List ℕ → Gate → Gate
hand_over [] g = record g { active = g.active - 1 }
hand_over (next ∷ rest) g =
    let g₁ = settle next (record g { queue = rest }) in
    let (slot, g₂) = grant g₁ in finish next (granted slot) g₂

unfoldable pub release : ℕ → Gate → Gate
unfolding erase
release slot g =
    if is_released g.released slot
    then g
    else hand_over g.queue (record g { released = mark_released g.released slot })

-- `acquire`: the argument is `signal.aborted`.
unfoldable pub acquire : Bool → Gate → Promise × Gate
acquire true g = (settled aborted, g)
acquire false g =
    if ltb g.active g.max_active
    then (let (slot, g') = grant (record g { active = g.active + 1 }) in
        (settled (granted slot), g'))
    else if leb g.max_waiting (length g.queue)
    then (settled (capacity_error saturated), g)
    else (
      waiting g.next_waiter,
      record g {
        queue = g.queue ++ g.next_waiter ∷ [];
        armed = g.armed ++ g.next_waiter ∷ [];
        next_waiter = suc g.next_waiter;
      },
    )

-- `remove()` of a waiter: `settle`, then out of the queue.
abbrev pub remove : ℕ → Gate → Gate
remove w g = record g { armed = erase w g.armed; queue = erase w g.queue }

-- The timer of a waiter fires, or its signal aborts. Neither happens once it is cleared.
unfoldable pub fire : ℕ → Outcome → Gate → Gate
unfolding erase
fire w o g = if any (λ x. x == w) g.armed then finish w o (remove w g) else g

pub data Event : Type 0 where
  acquires : (signal_aborted : Bool) → Event
  releases : (slot : ℕ) → Event
  times_out aborts : (waiter : ℕ) → Event

unfoldable pub step : Gate → Event → Gate
unfolding acquire release fire
step g (acquires signal_aborted) = (acquire signal_aborted g).1
step g (releases slot) = release slot g
step g (times_out w) = fire w (capacity_error timeout) g
step g (aborts w) = fire w aborted g

unfoldable pub run : Gate → List Event → Gate
unfolding step
run g [] = g
run g (e ∷ es) = run (step g e) es
