-- ===== src/Api/StoreHealth.antt =====
-- apps/api/src/rate-limit/valkey-store.ts: `StoreHealth`, which logs when the store breaks and when
-- it comes back, and counts what it kept silent in between.
use presslabz.Base.{
  ℕ, suc, ◌+◌, ◌≡◌, refl, sym, ◌∙◌, subst, Bool, true, false, List, [], ◌∷◌, ◌++◌, arith,
}

pub data Warning : Type 0 where
  unavailable : Warning
  recovered : (suppressed : ℕ) → Warning

pub record StoreHealth : Type 0 where
  pub healthy : Bool
  pub suppressed : ℕ
  pub log : List Warning

abbrev pub created : StoreHealth
created = record { healthy = true; suppressed = 0; log = [] }

abbrev failure_while : Bool → StoreHealth → StoreHealth
failure_while true h = record { healthy = false; suppressed = 0; log = h.log ++ unavailable ∷ [] }
failure_while false h = record h { suppressed = suc h.suppressed }

unfoldable pub record_failure : StoreHealth → StoreHealth
record_failure h = failure_while h.healthy h

abbrev success_while : Bool → StoreHealth → StoreHealth
success_while true h = h
success_while false h = record {
  healthy = true;
  suppressed = 0;
  log = h.log ++ recovered h.suppressed ∷ [];
}

unfoldable pub record_success : StoreHealth → StoreHealth
record_success h = success_while h.healthy h

-- The outcomes of the store's calls; true is a failure.
unfoldable pub record_all : StoreHealth → List Bool → StoreHealth
unfolding record_failure record_success
record_all h [] = h
record_all h (true ∷ outcomes) = record_all (record_failure h) outcomes
record_all h (false ∷ outcomes) = record_all (record_success h) outcomes

-- The failures that a log accounts for: one for each line that says so, and the suppressed ones.
abbrev pub accounted : List Warning → ℕ
accounted [] = 0
accounted (unavailable ∷ ws) = suc (accounted ws)
accounted (recovered n ∷ ws) = n + accounted ws

-- The log goes from `unavailable` to `recovered` and back, starting where nothing is logged.
abbrev pub Alternates : Bool → List Warning → Bool → Type 0
Alternates healthy [] now = healthy ≡ now
Alternates true (unavailable ∷ ws) now = Alternates false ws now
Alternates false (recovered n ∷ ws) now = Alternates true ws now
Alternates true (recovered n ∷ ws) now = ⊥
Alternates false (unavailable ∷ ws) now = ⊥

abbrev pub failures : List Bool → ℕ
failures [] = 0
failures (true ∷ outcomes) = suc (failures outcomes)
failures (false ∷ outcomes) = failures outcomes

accounted-append : (xs ys : List Warning) → accounted (xs ++ ys) ≡ accounted xs + accounted ys
accounted-append [] ys = omega arith
accounted-append (unavailable ∷ xs) ys = omega (arith, accounted-append xs ys)
accounted-append (recovered n ∷ xs) ys = omega (arith, accounted-append xs ys)

Alternates-unavailable :
    (b : Bool) (ws : List Warning)
    → Alternates b ws true
    → Alternates b (ws ++ unavailable ∷ []) false
Alternates-unavailable true [] h = refl
Alternates-unavailable false [] h = absurd (cc)
Alternates-unavailable true (unavailable ∷ ws) h = Alternates-unavailable false ws h
Alternates-unavailable false (recovered n ∷ ws) h = Alternates-unavailable true ws h
Alternates-unavailable true (recovered n ∷ ws) h = absurd h
Alternates-unavailable false (unavailable ∷ ws) h = absurd h

Alternates-recovered :
    (b : Bool) (n : ℕ) (ws : List Warning)
    → Alternates b ws false
    → Alternates b (ws ++ recovered n ∷ []) true
Alternates-recovered false n [] h = refl
Alternates-recovered true n [] h = absurd (cc)
Alternates-recovered true n (unavailable ∷ ws) h = Alternates-recovered false n ws h
Alternates-recovered false n (recovered m ∷ ws) h = Alternates-recovered true n ws h
Alternates-recovered true n (recovered m ∷ ws) h = absurd h
Alternates-recovered false n (unavailable ∷ ws) h = absurd h

never_both : false ≡ true → ⊥
never_both e = cc

record IsAccounted (h : StoreHealth) (n : ℕ) : Type 0 where
  alternates : Alternates true h.log h.healthy
  total : accounted h.log + h.suppressed ≡ n
  quiet : h.healthy ≡ true → h.suppressed ≡ 0

failure-IsAccounted :
    (b : Bool) (h : StoreHealth) (n : ℕ)
    → h.healthy ≡ b
    → IsAccounted h n
    → IsAccounted (failure_while b h) (suc n)
failure-IsAccounted true h n e a = record {
  alternates = Alternates-unavailable true h.log (subst (Alternates true h.log) e a.alternates);
  total = let q = a.quiet e in omega (arith, accounted-append h.log (unavailable ∷ []), a.total, q);
  quiet = λ x. refl;
}
failure-IsAccounted false h n e a = record {
  alternates = a.alternates;
  total = omega (arith, a.total);
  quiet = λ x. absurd (never_both (sym e ∙ x));
}

success-IsAccounted :
    (b : Bool) (h : StoreHealth) (n : ℕ)
    → h.healthy ≡ b
    → IsAccounted h n
    → IsAccounted (success_while b h) n
success-IsAccounted true h n e a = a
success-IsAccounted false h n e a = record {
  alternates =
      Alternates-recovered true h.suppressed h.log (subst (Alternates true h.log) e a.alternates);
  total = omega (arith, accounted-append h.log (recovered h.suppressed ∷ []), a.total);
  quiet = λ x. refl;
}

record_all-IsAccounted :
    (outcomes : List Bool) (h : StoreHealth) (n : ℕ)
    → IsAccounted h n
    → IsAccounted (record_all h outcomes) (n + failures outcomes)
unfolding record_all record_failure record_success
record_all-IsAccounted [] h n a = subst (IsAccounted h) (omega arith) a
record_all-IsAccounted (true ∷ outcomes) h n a =
    subst (IsAccounted (record_all h (true ∷ outcomes))) (omega arith) (
      record_all-IsAccounted outcomes (record_failure h) (suc n)
        (failure-IsAccounted h.healthy h n refl a))
record_all-IsAccounted (false ∷ outcomes) h n a =
    record_all-IsAccounted outcomes (record_success h) n (success-IsAccounted h.healthy h n refl a)

-- Whatever the store's calls do, the log says in turn that it is unavailable and that it has
-- recovered, it ends as the store stands, and every failure is a line that says so, is among those
-- that a recovery counts, or is counted for the next one.
pub record_all-accounted :
    (outcomes : List Bool)
    → Alternates true (record_all created outcomes).log (record_all created outcomes).healthy
      × (accounted (record_all created outcomes).log + (record_all created outcomes).suppressed
          ≡ failures outcomes)
record_all-accounted outcomes =
    let a =
      record_all-IsAccounted outcomes created 0
        (record { alternates = refl; total = omega arith; quiet = λ x. refl }) in
    (a.alternates, omega (arith, a.total))
