-- ===== src/Api/Scheduler.antt =====
-- apps/api/src/content/scheduler.ts: the timer that publishes what is due. What `publishDue` and
-- `announce` answer are events; a pass is what its `run` still has to do.
pub mod Orderly
use presslabz.Base.{
  ℕ, zero, suc, ◌≡◌, refl, sym, ◌∙◌, ap, ◌⊎◌, inl, inr, Bool, true, false, List, [], ◌∷◌, ◌++◌,
  arith,
}
use presslabz.Content.Rows.{ContentRow}

pub data Pass : Type 0 where
  -- It awaits `publishDue()`.
  claiming : Pass
  -- It awaits `announce(row)`, with the rows behind it to come.
  announcing : (row : ContentRow) (rest : List ContentRow) → Pass

pub data LogLine : Type 0 where
  published_scheduled : (rows : List ContentRow) → LogLine
  could_not_announce : (row : ContentRow) → LogLine
  could_not_publish : LogLine

-- The scheduler, with every row that its passes were given and every row that it announced.
pub record Scheduler : Type 0 where
  pub running : Bool
  pub stopped : Bool
  pub passes : List Pass
  pub claimed : List ContentRow
  pub announced : List ContentRow
  pub log : List LogLine

-- A pass is named by its place among those that run.
pub data Event : Type 0 where
  timer_fires : Event
  published_due : (pass : ℕ) (rows : List ContentRow) → Event
  publish_failed : (pass : ℕ) → Event
  announced_row : (pass : ℕ) (failed : Bool) → Event
  stops : Event

-- `run`, up to its first await.
abbrev pub begin : Bool → Scheduler → Scheduler
begin true s = s
begin false s = record s { running = true; passes = s.passes ++ claiming ∷ [] }

unfoldable pub run_pass : Scheduler → Scheduler
run_pass s = begin s.running s

-- `clearInterval` is the end of the timer, not of a pass.
abbrev pub tick : Bool → Scheduler → Scheduler
tick true s = s
tick false s = run_pass s

abbrev pub at_pass :
    ℕ → List Pass → (List Pass → Pass → List Pass → Scheduler) → Scheduler → Scheduler
at_pass n [] k s = s
at_pass zero (p ∷ ps) k s = k [] p ps
at_pass (suc n) (p ∷ ps) k s = at_pass n ps (λ before q after. k (p ∷ before) q after) s

-- The pass takes up the next row, or ends, and `finally` clears `running`.
abbrev pub go_on : List Pass → List ContentRow → List Pass → Scheduler → Scheduler
go_on before [] after s = record s { running = false; passes = before ++ after }
go_on before (row ∷ rest) after s = record s {
  passes = before ++ announcing row rest ∷ after;
  announced = s.announced ++ row ∷ [];
}

abbrev pub said_published : List ContentRow → List LogLine → List LogLine
said_published [] log = log
said_published (row ∷ rows) log = log ++ published_scheduled (row ∷ rows) ∷ []

abbrev pub given : List ContentRow → Scheduler → List Pass → Pass → List Pass → Scheduler
given rows s before claiming after =
    go_on before rows after
      (record s { claimed = s.claimed ++ rows; log = said_published rows s.log })
given rows s before (announcing row rest) after = s

abbrev pub failed_claim : Scheduler → List Pass → Pass → List Pass → Scheduler
failed_claim s before claiming after =
    go_on before [] after (record s { log = s.log ++ could_not_publish ∷ [] })
failed_claim s before (announcing row rest) after = s

abbrev pub said_failed : Bool → ContentRow → List LogLine → List LogLine
said_failed true row log = log ++ could_not_announce row ∷ []
said_failed false row log = log

abbrev pub told : Bool → Scheduler → List Pass → Pass → List Pass → Scheduler
told failed s before claiming after = s
told failed s before (announcing row rest) after =
    go_on before rest after (record s { log = said_failed failed row s.log })

unfoldable pub step : Scheduler → Event → Scheduler
unfolding run_pass
step s timer_fires = tick s.stopped s
step s (published_due pass rows) = at_pass pass s.passes (given rows s) s
step s (publish_failed pass) = at_pass pass s.passes (failed_claim s) s
step s (announced_row pass failed) = at_pass pass s.passes (told failed s) s
step s stops = record s { stopped = true }

abbrev pub idle : Scheduler
idle = record {
  running = false;
  stopped = false;
  passes = [];
  claimed = [];
  announced = [];
  log = [];
}

-- One pass at once, then the timer.
unfoldable pub start_scheduler : Scheduler
unfolding run_pass
start_scheduler = run_pass idle

unfoldable pub run : Scheduler → List Event → Scheduler
unfolding step
run s [] = s
run s (e ∷ es) = run (step s e) es
