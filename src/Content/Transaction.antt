-- ===== src/Content/Transaction.antt =====
-- A database transaction as a state monad with failure: what fails is rolled back, since the
-- tables it would have left are not part of the failure.
use presslabz.Base.{arith, ◌≡◌, ◌⊎◌, inl, inr, refl, Bool, true, false, none, some, List}
use presslabz.Content.Rows.{
  ContentMediaReference, ContentConflictReason, ContentForbiddenReason, Db,
}
use presslabz.Content.Database.{Constraint, Postgres}

-- What a content write throws: the repository's three classes, the `ZodError` of a state that the
-- type does not allow, the driver's error, and the `Error` of a publication that lost its row.
pub data WriteError : Type 0 where
  conflict : ContentConflictReason → WriteError
  forbidden : ContentForbiddenReason → WriteError
  media_missing : List ContentMediaReference → WriteError
  invalid_state : WriteError
  violation : Constraint → WriteError
  no_row : WriteError

pub data Result {ℓ} (A : Type ℓ) : Type ℓ where
  ok : A → Result A
  err : WriteError → Result A

abbrev pub Tx : Type 0 → Type 0
Tx A = Db → Result (A × Db)

abbrev pub after : {A B : Type 0} → Result (A × Db) → (A → Tx B) → Result (B × Db)
after (ok (a, db')) f = f a db'
after (err e) f = err e

infixl 5 ◌>>=◌ ◌>>◌
abbrev pub ◌>>=◌ : {A B : Type 0} → Tx A → (A → Tx B) → Tx B
◌>>=◌ m f db = after (m db) f

abbrev pub ◌>>◌ : {A B : Type 0} → Tx A → Tx B → Tx B
m >> n = m >>= λ _. n

abbrev pub pure : {A : Type 0} → A → Tx A
pure a db = ok (a, db)

abbrev pub throw : {A : Type 0} → WriteError → Tx A
throw e db = err e

abbrev pub gets : {A : Type 0} → (Db → A) → Tx A
gets f db = ok (f db, db)

abbrev pub require : Bool → WriteError → Tx Unit
require true e = pure tt
require false e = throw e

-- One statement that writes: the tables that it leads to, if they violate no constraint.
unfoldable pub statement : Postgres → (Db → Db) → Tx Unit
statement pg f db = elim (pg.violated (f db)) [ none ↦ ok (tt, f db) | some c ↦ err (violation c) ]

after-eq-ok :
    {A B : Type 0} (r : Result (A × Db)) (f : A → Tx B) {b : B} {db₂ : Db}
    → after r f ≡ ok (b, db₂)
    → (a : A) × (db₁ : Db) × (r ≡ ok (a, db₁)) × (f a db₁ ≡ ok (b, db₂))
after-eq-ok (ok (a, db₁)) f h = (a, db₁, refl, h)
after-eq-ok (err e) f h = absurd (ground arith)

pub Result-cases {ℓ} :
    {A : Type ℓ} (r : Result A) → ((a : A) × (r ≡ ok a)) ⊎ ((e : WriteError) × (r ≡ err e))
Result-cases (ok a) = inl (a, refl)
Result-cases (err e) = inr (e, refl)

-- Inversion of a bind that returned.
pub >>=-eq-ok :
    {A B : Type 0} (m : Tx A) (f : A → Tx B) (db : Db) {b : B} {db₂ : Db}
    → (m >>= f) db ≡ ok (b, db₂)
    → (a : A) × (db₁ : Db) × (m db ≡ ok (a, db₁)) × (f a db₁ ≡ ok (b, db₂))
>>=-eq-ok m f db h = after-eq-ok (m db) f h
