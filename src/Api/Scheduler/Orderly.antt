-- ===== src/Api/Scheduler/Orderly.antt =====
-- apps/api/src/content/scheduler.ts: it never overlaps itself, and announces what it published.
use presslabz.Base.{ℕ, zero, suc, ◌≡◌, refl, sym, ◌∙◌, ap, Bool, true, false, List, [], ◌∷◌, ◌++◌}
use mathlib.Core.List.{append-nil, append_assoc}
use presslabz.Content.Rows.{ContentRow}
use presslabz.Api.Scheduler.{
  Pass, claiming, announcing, Scheduler, Event, timer_fires, published_due, publish_failed,
  announced_row, stops, begin, tick, run_pass, at_pass, go_on, given, failed_claim, told,
  said_published, said_failed, step, start_scheduler, run, could_not_publish,
}

-- The rows that a pass was given and has not come to.
abbrev pub waiting : List Pass → List ContentRow
waiting [] = []
waiting (claiming ∷ ps) = waiting ps
waiting (announcing row rest ∷ ps) = rest ++ waiting ps

-- `running` tells whether a pass runs; there is at most one.
abbrev pub RunsOne : Bool → List Pass → Type 0
RunsOne false [] = Unit
RunsOne true (p ∷ []) = Unit
RunsOne _ _ = ⊥

pub record IsOrderly (s : Scheduler) : Type 0 where
  pub single : RunsOne s.running s.passes
  pub once : s.claimed ≡ s.announced ++ waiting s.passes

-- An event at a pass concerns the one that runs, or none.
at_pass-IsOrderly :
    (n : ℕ) (b : Bool) (ps : List Pass) (k : List Pass → Pass → List Pass → Scheduler)
    (s : Scheduler)
    → RunsOne b ps
    → ((p : Pass) → ps ≡ p ∷ [] → IsOrderly (k [] p []))
    → IsOrderly s
    → IsOrderly (at_pass n ps k s)
at_pass-IsOrderly n b [] k s one h o = o
at_pass-IsOrderly zero true (p ∷ []) k s one h o = h p refl
at_pass-IsOrderly (suc n) true (p ∷ []) k s one h o = o
at_pass-IsOrderly n false (p ∷ ps) k s one h o = absurd one
at_pass-IsOrderly n true (p ∷ q ∷ ps) k s one h o = absurd one

-- The one pass takes up the rows `rows`, all of which it was given.
go_on-IsOrderly :
    (rows : List ContentRow) (s : Scheduler)
    → s.running ≡ true
    → s.claimed ≡ s.announced ++ rows
    → IsOrderly (go_on [] rows [] s)
go_on-IsOrderly [] s r e = record { single = tt; once = e }
go_on-IsOrderly (row ∷ rest) s r e = record {
  single = rw r tt;
  once =
      e
      ∙ (ap (λ x. s.announced ++ row ∷ x) (sym (append-nil rest))
          ∙ sym (append_assoc s.announced (row ∷ []) (rest ++ [])));
}

RunsOne-running : (b : Bool) (ps : List Pass) (p : Pass) → RunsOne b ps → ps ≡ p ∷ [] → b ≡ true
RunsOne-running true ps p one e = refl
RunsOne-running false [] p one e = absurd (cc)
RunsOne-running false (q ∷ ps) p one e = absurd one

module _ (s : Scheduler) (o : IsOrderly s) where
  waited : (p : Pass) → s.passes ≡ p ∷ [] → s.claimed ≡ s.announced ++ waiting (p ∷ [])
  waited p e = o.once ∙ ap (λ ps. s.announced ++ waiting ps) e

  runs : (p : Pass) → s.passes ≡ p ∷ [] → s.running ≡ true
  runs p e = RunsOne-running s.running s.passes p o.single e

  given-IsOrderly :
      (rows : List ContentRow) (p : Pass) → s.passes ≡ p ∷ [] → IsOrderly (given rows s [] p [])
  given-IsOrderly rows claiming e =
      go_on-IsOrderly rows
        (record s { claimed = s.claimed ++ rows; log = said_published rows s.log })
        (runs claiming e) (ap (λ x. x ++ rows) (waited claiming e ∙ append-nil s.announced))
  given-IsOrderly rows (announcing row rest) e = o

  failed_claim-IsOrderly : (p : Pass) → s.passes ≡ p ∷ [] → IsOrderly (failed_claim s [] p [])
  failed_claim-IsOrderly claiming e =
      go_on-IsOrderly [] (record s { log = s.log ++ could_not_publish ∷ [] }) (runs claiming e)
        (waited claiming e)
  failed_claim-IsOrderly (announcing row rest) e = o

  told-IsOrderly :
      (failed : Bool) (p : Pass) → s.passes ≡ p ∷ [] → IsOrderly (told failed s [] p [])
  told-IsOrderly failed claiming e = o
  told-IsOrderly failed (announcing row rest) e =
      go_on-IsOrderly rest (record s { log = said_failed failed row s.log })
        (runs (announcing row rest) e)
        (waited (announcing row rest) e ∙ ap (λ x. s.announced ++ x) (append-nil rest))

  begin-IsOrderly :
      (b : Bool) (ps : List Pass)
      → s.running ≡ b
      → s.passes ≡ ps
      → RunsOne b ps
      → IsOrderly (begin b s)
  begin-IsOrderly true ps e f one = o
  begin-IsOrderly false [] e f one = record {
    single = rw f tt;
    once =
        o.once
        ∙ ap (λ x. s.announced ++ waiting x) f
        ∙ ap (λ x. s.announced ++ waiting (x ++ claiming ∷ [])) (sym f);
  }
  begin-IsOrderly false (p ∷ ps) e f one = absurd one

  tick-IsOrderly : (stopped : Bool) → IsOrderly (tick stopped s)
  unfolding run_pass
  tick-IsOrderly true = o
  tick-IsOrderly false = begin-IsOrderly s.running s.passes refl refl o.single

step-IsOrderly : (s : Scheduler) (e : Event) → IsOrderly s → IsOrderly (step s e)
unfolding step
step-IsOrderly s timer_fires o = tick-IsOrderly s o s.stopped
step-IsOrderly s (published_due pass rows) o =
    at_pass-IsOrderly pass s.running s.passes (given rows s) s o.single (given-IsOrderly s o rows) o
step-IsOrderly s (publish_failed pass) o =
    at_pass-IsOrderly pass s.running s.passes (failed_claim s) s o.single
      (failed_claim-IsOrderly s o) o
step-IsOrderly s (announced_row pass failed) o =
    at_pass-IsOrderly pass s.running s.passes (told failed s) s o.single (told-IsOrderly s o failed)
      o
step-IsOrderly s stops o = record { single = o.single; once = o.once }

run-IsOrderly_from : (s : Scheduler) (es : List Event) → IsOrderly s → IsOrderly (run s es)
unfolding run
run-IsOrderly_from s [] o = o
run-IsOrderly_from s (e ∷ es) o = run-IsOrderly_from (step s e) es (step-IsOrderly s e o)

-- However long a pass takes and whatever fails, at most one pass of the scheduler runs at a time,
-- and the rows that its passes were given are those it announced, each once and in their order,
-- followed by those that the pass that runs has not come to.
pub run-IsOrderly : (es : List Event) → IsOrderly (run start_scheduler es)
unfolding start_scheduler run_pass
run-IsOrderly es = run-IsOrderly_from start_scheduler es (record { single = tt; once = refl })
