-- ===== src/Media/Admission/Options.antt =====
-- apps/api/src/media/admission.ts: the options that `createAdmission` takes and refuses.
use presslabz.Base.{ℕ, String, ◌≤◌, ◌≡◌, refl, [], arith}
use presslabz.Media.Admission.{
  Gate, create_admission, created, AdmissionOptions, Checked, value, range_error, or_default,
  create_checked, Number, natural, negative, not_integer, integer_option, max_safe_integer,
  max_timeout_ms,
}

-- An option that passes is a safe integer in its range.
pub integer_option_range :
    (name : String) (v : Number) (low high n : ℕ)
    → integer_option name v low high ≡ value n
    → (v ≡ natural n) × (low ≤ n) × (n ≤ high) × (n ≤ max_safe_integer)
unfolding integer_option
integer_option_range name (natural m) low high n e = ground arith
integer_option_range name (negative m) low high n e = cc
integer_option_range name not_integer low high n e = cc

-- What a gate starts with.
pub record IsFresh (g : Gate) : Type 0 where
  pub positive : 1 ≤ g.max_active
  pub wait_low : 1 ≤ g.wait_ms
  pub wait_high : g.wait_ms ≤ max_timeout_ms
  pub none_active : g.active ≡ 0
  pub none_queued : g.queue ≡ []
  pub none_granted : g.released ≡ []
  pub none_armed : g.armed ≡ []
  pub none_made : g.next_waiter ≡ 0
  pub none_settled : g.outcomes ≡ []

create_checked-IsFresh :
    (a m w : Checked) (g : Gate)
    → ((n : ℕ) → a ≡ value n → 1 ≤ n)
    → ((n : ℕ) → w ≡ value n → (1 ≤ n) × (n ≤ max_timeout_ms))
    → create_checked a m w ≡ created g
    → IsFresh g
unfolding create_checked
create_checked-IsFresh (value a) (value m) (value w) g ha hw e = record {
  positive = ground (arith, ha a refl);
  wait_low = ground (arith, hw w refl);
  wait_high = ground (arith, hw w refl);
  none_active = ground arith;
  none_queued = ground arith;
  none_granted = ground arith;
  none_armed = ground arith;
  none_made = ground arith;
  none_settled = ground arith;
}
create_checked-IsFresh (value a) (value m) (range_error n) g ha hw e = cc
create_checked-IsFresh (value a) (range_error n) w g ha hw e = cc
create_checked-IsFresh (range_error n) m w g ha hw e = cc

-- A gate is created only with at least one permit and with a wait that Node does not clamp, and
-- then nothing is granted, queued, armed or settled.
pub create_admission-IsFresh :
    (options : AdmissionOptions) (g : Gate) → create_admission options ≡ created g → IsFresh g
unfolding create_admission
create_admission-IsFresh options g e =
    create_checked-IsFresh _ _ _ g
      (λ n h.
        (integer_option_range "maxActive" (or_default options.max_active 2) 1 max_safe_integer n
          h).1)
      (λ n h. omega (
        arith,
        integer_option_range "waitMs" (or_default options.wait_ms 30000) 1 max_timeout_ms n h,
      ))
      e
