-- ===== src/Media/Admission/Promises.antt =====
-- apps/api/src/media/admission.ts: every promise that `acquire` leaves pending is queued or has
-- settled, and never both; what is queued has its timer set, and nothing else has.
use presslabz.Base.{
  ℕ, ◌+◌, ◌≡◌, refl, Bool, true, List, [], ◌∷◌, ◌++◌, arith, ltb, ◌==◌, if◌then◌else◌, any, ==_refl,
}
use presslabz.Media.Admission.Options.{create_admission-IsFresh}
use presslabz.Media.Admission.{
  Gate, Outcome, Event, acquires, releases, times_out, aborts, erase, mark_released, hand_over,
  release, acquire, fire, step, run, create_admission, created, AdmissionOptions,
}

-- How often a waiter stands in the queue, and how often its promise settled.
abbrev pub places : ℕ → List ℕ → ℕ
places w [] = 0
places w (x ∷ xs) = (if x == w then 1 else 0) + places w xs

abbrev pub settlements : ℕ → List (ℕ × Outcome) → ℕ
settlements w [] = 0
settlements w ((x, o) ∷ xs) = (if x == w then 1 else 0) + settlements w xs

pub record IsTracked (g : Gate) : Type 0 where
  pub armed : g.armed ≡ g.queue
  pub once :
      (w : ℕ) → places w g.queue + settlements w g.outcomes ≡ (if ltb w g.next_waiter then 1 else 0)

places-append : (w n : ℕ) (q : List ℕ) → places w (q ++ n ∷ []) ≡ places w q + places w (n ∷ [])
places-append w n [] = omega arith
places-append w n (x ∷ q) = omega (arith, places-append w n q)

places-erase :
    (w v : ℕ) (q : List ℕ)
    → any (λ x. x == v) q ≡ true
    → places w (erase v q) + (if v == w then 1 else 0) ≡ places w q
unfolding erase
places-erase w v [] h = cc
places-erase w v (x ∷ q) h = ground (arith, places-erase w v q)

erase_head : (v : ℕ) (q : List ℕ) → erase v (v ∷ q) ≡ q
unfolding erase
erase_head v q = ground (arith, ==_refl v)

module _ (g : Gate) (t : IsTracked g) where
  acquire-IsTracked : (b : Bool) → IsTracked (acquire b g).1
  unfolding acquire
  acquire-IsTracked b = record {
    armed = ground (arith, t.armed);
    once = λ w. ground (arith, t.once w, places-append w g.next_waiter g.queue);
  }

  fire-IsTracked : (v : ℕ) (o : Outcome) → IsTracked (fire v o g)
  unfolding fire
  fire-IsTracked v o = record {
    armed = ground (arith, t.armed);
    once = λ w. ground (arith, t.once w, places-erase w v g.queue, t.armed);
  }

  hand_over-IsTracked :
      (bs : List Bool) (q : List ℕ)
      → g.queue ≡ q
      → IsTracked (hand_over q (record g { released = bs }))
  hand_over-IsTracked bs [] e = record { armed = t.armed; once = t.once }
  hand_over-IsTracked bs (next ∷ rest) e = record {
    armed = rw (t.armed, e) (erase_head next rest);
    once = λ w. ground (arith, t.once w, e);
  }

  release-IsTracked : (slot : ℕ) → IsTracked (release slot g)
  unfolding release
  release-IsTracked slot =
      ground (arith, hand_over-IsTracked (mark_released g.released slot) g.queue refl)

step-IsTracked : (g : Gate) (e : Event) → IsTracked g → IsTracked (step g e)
unfolding step
step-IsTracked g (acquires b) h = acquire-IsTracked g h b
step-IsTracked g (releases slot) h = release-IsTracked g h slot
step-IsTracked g (times_out w) h = fire-IsTracked g h w _
step-IsTracked g (aborts w) h = fire-IsTracked g h w _

run-IsTracked_from : (g : Gate) (es : List Event) → IsTracked g → IsTracked (run g es)
unfolding run
run-IsTracked_from g [] h = h
run-IsTracked_from g (e ∷ es) h = run-IsTracked_from (step g e) es (step-IsTracked g e h)

-- After any events, every promise that was left pending is in the queue or has settled, one of
-- the two and once; and the timers that are set are those of the queue.
pub run-IsTracked :
    (options : AdmissionOptions) (g : Gate) (es : List Event)
    → create_admission options ≡ created g
    → IsTracked (run g es)
run-IsTracked options g es e =
    let f = create_admission-IsFresh options g e in
    run-IsTracked_from g es (record {
      armed = rw (f.none_armed, f.none_queued);
      once = λ w. rw (f.none_queued, f.none_settled, f.none_made) (ground arith);
    })
