-- ===== src/Media/Admission/Slots.antt =====
-- apps/api/src/media/admission.ts: a slot, once released, stays released.
use presslabz.Base.{
  ℕ, zero, suc, ◌≡◌, refl, inl, inr, Bool, true, false, List, [], ◌∷◌, ◌++◌, arith, Bool-cases,
}
use presslabz.Media.Admission.{
  Gate, Outcome, Event, acquires, releases, times_out, aborts, is_released, mark_released,
  hand_over, release, acquire, fire, step, run,
}

-- A slot that was granted and has been released.
abbrev pub IsSpent : ℕ → List Bool → Type 0
IsSpent i [] = ⊥
IsSpent zero (b ∷ bs) = b ≡ true
IsSpent (suc i) (b ∷ bs) = IsSpent i bs

IsSpent-is_released : (i : ℕ) (bs : List Bool) → IsSpent i bs → is_released bs i ≡ true
IsSpent-is_released zero (b ∷ bs) h = h
IsSpent-is_released (suc i) (b ∷ bs) h = IsSpent-is_released i bs h
IsSpent-is_released i [] h = refl

mark_released-IsSpent : (i j : ℕ) (bs : List Bool) → IsSpent i bs → IsSpent i (mark_released bs j)
mark_released-IsSpent i j [] h = h
mark_released-IsSpent zero zero (b ∷ bs) h = refl
mark_released-IsSpent (suc i) zero (b ∷ bs) h = h
mark_released-IsSpent zero (suc j) (b ∷ bs) h = h
mark_released-IsSpent (suc i) (suc j) (b ∷ bs) h = mark_released-IsSpent i j bs h

mark_released-IsSpent_self :
    (i : ℕ) (bs : List Bool) → is_released bs i ≡ false → IsSpent i (mark_released bs i)
mark_released-IsSpent_self i [] h = absurd (cc)
mark_released-IsSpent_self zero (b ∷ bs) h = refl
mark_released-IsSpent_self (suc i) (b ∷ bs) h = mark_released-IsSpent_self i bs h

grant-IsSpent : (i : ℕ) (bs : List Bool) → IsSpent i bs → IsSpent i (bs ++ false ∷ [])
grant-IsSpent zero (b ∷ bs) h = h
grant-IsSpent (suc i) (b ∷ bs) h = grant-IsSpent i bs h
grant-IsSpent i [] h = absurd h

hand_over-IsSpent :
    (i : ℕ) (q : List ℕ) (g : Gate) → IsSpent i g.released → IsSpent i (hand_over q g).released
hand_over-IsSpent i [] g h = h
hand_over-IsSpent i (next ∷ rest) g h = grant-IsSpent i g.released h

release-IsSpent :
    (i slot : ℕ) (g : Gate) → IsSpent i g.released → IsSpent i (release slot g).released
unfolding release
release-IsSpent i slot g h = elim (Bool-cases (is_released g.released slot)) [
  | inl e ↦ rw e h
  | inr e ↦ rw e (hand_over-IsSpent i g.queue _ (mark_released-IsSpent i slot g.released h))
]

release-IsSpent_self :
    (slot : ℕ) (g : Gate)
    → is_released g.released slot ≡ false
    → IsSpent slot (release slot g).released
unfolding release
release-IsSpent_self slot g e =
    rw e (hand_over-IsSpent slot g.queue _ (mark_released-IsSpent_self slot g.released e))

acquire-IsSpent :
    (i : ℕ) (b : Bool) (g : Gate) → IsSpent i g.released → IsSpent i (acquire b g).1.released
unfolding acquire
acquire-IsSpent i true g h = h
acquire-IsSpent i false g h = ground (arith, grant-IsSpent i g.released h)

fire-IsSpent :
    (i w : ℕ) (o : Outcome) (g : Gate) → IsSpent i g.released → IsSpent i (fire w o g).released
unfolding fire
fire-IsSpent i w o g h = ground arith

release_spent : (slot : ℕ) (g : Gate) → IsSpent slot g.released → release slot g ≡ g
unfolding release
release_spent slot g h = ground (arith, IsSpent-is_released slot g.released h)

step-IsSpent : (i : ℕ) (g : Gate) (e : Event) → IsSpent i g.released → IsSpent i (step g e).released
unfolding step
step-IsSpent i g (acquires b) h = acquire-IsSpent i b g h
step-IsSpent i g (releases slot) h = release-IsSpent i slot g h
step-IsSpent i g (times_out w) h = fire-IsSpent i w _ g h
step-IsSpent i g (aborts w) h = fire-IsSpent i w _ g h

run-IsSpent :
    (i : ℕ) (g : Gate) (es : List Event) → IsSpent i g.released → IsSpent i (run g es).released
unfolding run
run-IsSpent i g [] h = h
run-IsSpent i g (e ∷ es) h = run-IsSpent i (step g e) es (step-IsSpent i g e h)

-- Releasing a slot that was held, and once more after any later events, does nothing the second
-- time: no permit is returned twice.
pub release_idempotent :
    (g : Gate) (slot : ℕ) (es : List Event)
    → is_released g.released slot ≡ false
    → release slot (run (release slot g) es) ≡ run (release slot g) es
release_idempotent g slot es e =
    release_spent slot (run (release slot g) es)
      (run-IsSpent slot (release slot g) es (release-IsSpent_self slot g e))
