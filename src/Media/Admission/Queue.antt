-- ===== src/Media/Admission/Queue.antt =====
-- apps/api/src/media/admission.ts: the order of the queue.
use presslabz.Base.{
  ℕ, zero, suc, ◌<◌, ◌≡◌, refl, ap, subst, Bool, true, false, List, [], ◌∷◌, ◌++◌, arith, ltb, leb,
  ◌==◌, any, Bool-cases, inl, inr, All, length,
}
use presslabz.Media.Admission.Options.{create_admission-IsFresh}
use presslabz.Media.Admission.{
  Gate, Outcome, granted, Event, acquires, releases, times_out, aborts, erase, is_released,
  mark_released, hand_over, release, acquire, fire, step, run, create_admission, created,
  AdmissionOptions,
}

-- Every waiter stands before all that came later.
abbrev pub IsOrdered : List ℕ → Type 0
IsOrdered [] = Unit
IsOrdered (w ∷ ws) = All (λ v. w < v) ws × IsOrdered ws

record IsInOrder (g : Gate) : Type 0 where
  ordered : IsOrdered g.queue
  below : All (λ v. v < g.next_waiter) g.queue

All-below_suc : (n : ℕ) (q : List ℕ) → All (λ v. v < n) q → All (λ v. v < suc n) (q ++ n ∷ [])
All-below_suc n [] h = (omega arith, tt)
All-below_suc n (x ∷ q) (h, hs) = (omega arith, All-below_suc n q hs)

All-after-append :
    (w n : ℕ) (q : List ℕ) → w < n → All (λ v. w < v) q → All (λ v. w < v) (q ++ n ∷ [])
All-after-append w n [] h hs = (h, tt)
All-after-append w n (x ∷ q) h (p, ps) = (p, All-after-append w n q h ps)

append-IsOrdered : (n : ℕ) (q : List ℕ) → IsOrdered q → All (λ v. v < n) q → IsOrdered (q ++ n ∷ [])
append-IsOrdered n [] o h = (tt, tt)
append-IsOrdered n (w ∷ q) (a, o) (h, hs) = (All-after-append w n q h a, append-IsOrdered n q o hs)

erase-All {ℓ} : (P : ℕ → Type ℓ) (w : ℕ) (q : List ℕ) → All P q → All P (erase w q)
unfolding erase
erase-All P w [] h = h
erase-All P w (x ∷ q) (p, ps) = elim (Bool-cases (x == w)) [
  | inl e ↦ rw e ps
  | inr e ↦ rw e (p, erase-All P w q ps)
]

erase-IsOrdered : (w : ℕ) (q : List ℕ) → IsOrdered q → IsOrdered (erase w q)
unfolding erase
erase-IsOrdered w [] o = o
erase-IsOrdered w (x ∷ q) (a, o) = elim (Bool-cases (x == w)) [
  | inl e ↦ rw e o
  | inr e ↦ rw e (erase-All (λ v. x < v) w q a, erase-IsOrdered w q o)
]

module _ (g : Gate) (t : IsInOrder g) where
  acquire-IsInOrder : (b : Bool) → IsInOrder (acquire b g).1
  unfolding acquire
  acquire-IsInOrder true = t
  acquire-IsInOrder false = elim (Bool-cases (ltb g.active g.max_active)) [
    | inl e ↦ rw e (record { ordered = t.ordered; below = t.below })
    | inr e ↦ elim (Bool-cases (leb g.max_waiting (length g.queue))) [
      | inl d ↦ rw (e, d) t
      | inr d ↦
          rw (e, d)
            (record {
              ordered = append-IsOrdered g.next_waiter g.queue t.ordered t.below;
              below = All-below_suc g.next_waiter g.queue t.below;
            })
    ]
  ]

  fire-IsInOrder : (v : ℕ) (o : Outcome) → IsInOrder (fire v o g)
  unfolding fire
  fire-IsInOrder v o = elim (Bool-cases (any (λ x. x == v) g.armed)) [
    | inl e ↦ rw e (record {
      ordered = erase-IsOrdered v g.queue t.ordered;
      below = erase-All (λ u. u < g.next_waiter) v g.queue t.below;
    })
    | inr e ↦ rw e t
  ]

  hand_over-IsInOrder :
      (bs : List Bool) (q : List ℕ)
      → IsOrdered q
      → All (λ v. v < g.next_waiter) q
      → g.queue ≡ q
      → IsInOrder (hand_over q (record g { released = bs }))
  hand_over-IsInOrder bs [] o h e = record { ordered = t.ordered; below = t.below }
  hand_over-IsInOrder bs (next ∷ rest) (a, o) (h, hs) e = record { ordered = o; below = hs }

  release-IsInOrder : (slot : ℕ) → IsInOrder (release slot g)
  unfolding release
  release-IsInOrder slot = elim (Bool-cases (is_released g.released slot)) [
    | inl e ↦ rw e t
    | inr e ↦ rw e (hand_over-IsInOrder _ g.queue t.ordered t.below refl)
  ]

step-IsInOrder : (g : Gate) (e : Event) → IsInOrder g → IsInOrder (step g e)
unfolding step
step-IsInOrder g (acquires b) h = acquire-IsInOrder g h b
step-IsInOrder g (releases slot) h = release-IsInOrder g h slot
step-IsInOrder g (times_out w) h = fire-IsInOrder g h w _
step-IsInOrder g (aborts w) h = fire-IsInOrder g h w _

run-IsInOrder : (g : Gate) (es : List Event) → IsInOrder g → IsInOrder (run g es)
unfolding run
run-IsInOrder g [] h = h
run-IsInOrder g (e ∷ es) h = run-IsInOrder (step g e) es (step-IsInOrder g e h)

-- What a release of `slot` leads to when `w` is at the head of the queue and `ws` behind it.
pub record IsHandedOver (g : Gate) (slot w : ℕ) (ws : List ℕ) : Type 0 where
  pub settles : (release slot g).outcomes ≡ (w, granted (length g.released)) ∷ g.outcomes
  pub leaves : (release slot g).queue ≡ ws
  pub keeps_count : (release slot g).active ≡ g.active
  pub oldest : All (λ v. w < v) ws

length-mark_released : (i : ℕ) (bs : List Bool) → length (mark_released bs i) ≡ length bs
length-mark_released i [] = refl
length-mark_released zero (b ∷ bs) = refl
length-mark_released (suc i) (b ∷ bs) = ap suc (length-mark_released i bs)

release-IsHandedOver :
    (g : Gate) (slot w : ℕ) (ws : List ℕ)
    → IsOrdered g.queue
    → is_released g.released slot ≡ false
    → g.queue ≡ w ∷ ws
    → IsHandedOver g slot w ws
unfolding release
release-IsHandedOver g slot w ws o held e =
    let o' : IsOrdered (w ∷ ws) = subst IsOrdered e o in
    record {
      settles = rw (held, e) (ground (arith, length-mark_released slot g.released));
      leaves = rw (held, e);
      keeps_count = rw (held, e);
      oldest = o'.0;
    }

-- In a gate reached by any events, releasing a held slot while somebody waits gives a new slot
-- to the waiter that has waited longest, takes only that one out of the queue and leaves the
-- active count as it was.
pub release-grants_oldest :
    (options : AdmissionOptions) (g : Gate) (es : List Event) (slot w : ℕ) (ws : List ℕ)
    → create_admission options ≡ created g
    → is_released (run g es).released slot ≡ false
    → (run g es).queue ≡ w ∷ ws
    → IsHandedOver (run g es) slot w ws
release-grants_oldest options g es slot w ws e held q =
    let f = create_admission-IsFresh options g e in
    let start : IsInOrder g = record {
      ordered = rw f.none_queued tt;
      below = rw f.none_queued tt;
    } in
    release-IsHandedOver (run g es) slot w ws ((run-IsInOrder g es start).ordered) held q
