-- ===== src/Media/Admission/Permits.antt =====
-- apps/api/src/media/admission.ts: permits. Every permit is held by one open slot, there are
-- never more than `maxActive`, and nobody waits while one is free.
use presslabz.Base.{
  ℕ, zero, suc, ◌≤◌, ◌≡◌, refl, ap, ◌⊎◌, inl, Bool, true, false, List, [], ◌∷◌, ◌++◌, arith, length,
  length-append,
}
use presslabz.Media.Admission.Options.{create_admission-IsFresh}
use presslabz.Media.Admission.{
  Gate, Outcome, Event, acquires, releases, times_out, aborts, erase, is_released, mark_released,
  hand_over, release, acquire, fire, step, run, create_admission, created, AdmissionOptions,
}

-- Slots that were granted and not yet released.
abbrev pub open_slots : List Bool → ℕ
open_slots [] = 0
open_slots (true ∷ bs) = open_slots bs
open_slots (false ∷ bs) = suc (open_slots bs)

pub record IsSound (g : Gate) : Type 0 where
  pub permits : g.active ≡ open_slots g.released
  pub bound : g.active ≤ g.max_active
  pub room : length g.queue ≤ g.max_waiting
  pub full : (length g.queue ≡ 0) ⊎ (g.active ≡ g.max_active)

open_slots-grant : (bs : List Bool) → open_slots (bs ++ false ∷ []) ≡ suc (open_slots bs)
open_slots-grant [] = refl
open_slots-grant (true ∷ bs) = open_slots-grant bs
open_slots-grant (false ∷ bs) = ap suc (open_slots-grant bs)

open_slots-mark_released :
    (bs : List Bool) (i : ℕ)
    → is_released bs i ≡ false
    → suc (open_slots (mark_released bs i)) ≡ open_slots bs
open_slots-mark_released (true ∷ bs) (suc i) e = open_slots-mark_released bs i e
open_slots-mark_released (false ∷ bs) zero e = refl
open_slots-mark_released (false ∷ bs) (suc i) e = ap suc (open_slots-mark_released bs i e)
open_slots-mark_released [] i e = ground arith
open_slots-mark_released (true ∷ bs) zero e = ground arith

pub length-erase_le : (w : ℕ) (xs : List ℕ) → length (erase w xs) ≤ length xs
unfolding erase
length-erase_le w [] = omega arith
length-erase_le w (x ∷ xs) = ground (arith, length-erase_le w xs)

module _ (g : Gate) (sound : IsSound g) where
  acquire-IsSound : (signal_aborted : Bool) → IsSound (acquire signal_aborted g).1
  unfolding acquire
  acquire-IsSound true = sound
  acquire-IsSound false =
      ground (arith, open_slots-grant g.released, length-append g.queue (g.next_waiter ∷ []))

  fire-IsSound : (w : ℕ) (o : Outcome) → IsSound (fire w o g)
  unfolding fire
  fire-IsSound w o = ground (arith, length-erase_le w g.queue)

  hand_over-IsSound :
      (slot : ℕ) (q : List ℕ)
      → g.queue ≡ q
      → is_released g.released slot ≡ false
      → IsSound (hand_over q (record g { released = mark_released g.released slot }))
  hand_over-IsSound slot [] e held =
      ground (arith, open_slots-mark_released g.released slot, ap (λ (q : List ℕ). length q) e)
  hand_over-IsSound slot (next ∷ rest) e held = ground (
    arith,
    open_slots-mark_released g.released slot,
    open_slots-grant (mark_released g.released slot),
    ap (λ (q : List ℕ). length q) e,
  )

  release-IsSound : (slot : ℕ) → IsSound (release slot g)
  unfolding release
  release-IsSound slot = ground (arith, hand_over-IsSound slot g.queue refl)

step-IsSound : (g : Gate) (e : Event) → IsSound g → IsSound (step g e)
unfolding step
step-IsSound g (acquires signal_aborted) h = acquire-IsSound g h signal_aborted
step-IsSound g (releases slot) h = release-IsSound g h slot
step-IsSound g (times_out w) h = fire-IsSound g h w _
step-IsSound g (aborts w) h = fire-IsSound g h w _

run-IsSound_from : (g : Gate) (es : List Event) → IsSound g → IsSound (run g es)
unfolding run
run-IsSound_from g [] h = h
run-IsSound_from g (e ∷ es) h = run-IsSound_from (step g e) es (step-IsSound g e h)

create_admission-IsSound :
    (options : AdmissionOptions) (g : Gate) → create_admission options ≡ created g → IsSound g
create_admission-IsSound options g e =
    let f = create_admission-IsFresh options g e in
    record {
      permits = ground (arith, f.none_active, f.none_granted);
      bound = ground (arith, f.none_active);
      room = ground (arith, f.none_queued);
      full = inl (rw f.none_queued);
    }

-- Whatever happens after a gate is created, the active count is the number of slots granted and
-- not released, it is at most `maxActive`, at most `maxWaiting` wait, and while anybody waits
-- every permit is taken.
pub run-IsSound :
    (options : AdmissionOptions) (g : Gate) (es : List Event)
    → create_admission options ≡ created g
    → IsSound (run g es)
run-IsSound options g es e = run-IsSound_from g es (create_admission-IsSound options g e)
