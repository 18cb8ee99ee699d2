-- ===== src/Racepack/Calls.antt =====
-- How the operations of the desk end: with a value and new tables, or with an error, which rolls the
-- tables back (`ExecTx` of modules/racepack/repository.go and modules/scanner/repository.go).
use ivyticketing.Base.{◌≡◌, refl, Bool, true, false, Option, none, some, arith}
use ivyticketing.Store.Tx.{Error, Result, ok, err}
use ivyticketing.Racepack.Rows.{Desk}

-- `if b { return e }`.
unfoldable pub guard : {A : Type 0} → Bool → Error → Result A → Result A
guard true e r = err e
guard false e r = r

-- A query for one row, and what is made of it; `e` is the error for none.
unfoldable pub with_row : {A B : Type 0} → Option A → Error → (A → Result B) → Result B
with_row none e f = err e
with_row (some a) e f = f a

-- `ExecTx`.
unfoldable pub settle : {A : Type 0} → Desk → Result (A × Desk) → Result A × Desk
settle d (ok (a, d')) = (ok a, d')
settle d (err e) = (err e, d)

pub guard_ok :
    {A : Type 0} (b : Bool) (e : Error) (r : Result A) {a : A}
    → guard b e r ≡ ok a
    → (b ≡ false) × (r ≡ ok a)
unfolding guard
guard_ok true e r h = cc
guard_ok false e r h = (refl, h)

pub with_row_ok :
    {A B : Type 0} (o : Option A) (e : Error) (f : A → Result B) {b : B}
    → with_row o e f ≡ ok b
    → (a : A) × (o ≡ some a) × (f a ≡ ok b)
unfolding with_row
with_row_ok none e f h = cc
with_row_ok (some a) e f h = (a, refl, h)

pub settle_ok :
    {A : Type 0} (d : Desk) (r : Result (A × Desk)) {a : A} {d' : Desk}
    → settle d r ≡ (ok a, d')
    → r ≡ ok (a, d')
unfolding settle
settle_ok d (ok (b, e)) h = ground (arith, h)
settle_ok d (err e) h = cc
