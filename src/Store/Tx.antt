-- ===== src/Store/Tx.antt =====
-- A transaction (`ExecTx` of the orders and payments repositories): a function of the tables that
-- ends with a value and new tables, or with an error. On an error `exec_tx` rolls back, so the
-- tables are those of the start. Failures of the connection are not modelled: a query fails with
-- no rows or on a constraint of the schema (`constraint_violation`).
use ivyticketing.Base.{◌≡◌, refl, Bool, true, false, Option, none, some}
use ivyticketing.Store.Rows.{Database}

-- The errors of the modules.
pub data Error : Type 0 where
  queue_not_enabled token_not_found event_not_found admission_required admission_expired : Error
  ticket_not_found ticket_cancelled bib_missing ticket_event_mismatch already_picked_up : Error
  order_not_paid counter_not_found counter_event_mismatch counter_inactive slot_not_found : Error
  slot_inactive outside_window slot_full invalid_method invalid_state_change : Error
  no_problem_target idempotency_conflict unauthorized_event already_checked_in : Error
  signature_invalid unsupported_version malformed_token : Error
  mode_not_available registration_window_closed invalid_mode : Error
  order_not_found category_not_found event_not_published registration_closed : Error
  max_order_exceeded invalid_state order_number_gen terms_required : Error
  guest_email_required order_already_claimed grant_already_consumed : Error
  grant_not_found grant_expired sold_out payment_not_found amount_mismatch : Error
  invalid_signature parse_failed no_rows constraint_violation : Error
  pool_exhausted draw_not_found ballot_closed already_applied not_admitted invalid_answers
        duplicate_dedupe issue_failed fee_failed :
      Error

pub data Result {ℓ} (A : Type ℓ) : Type ℓ where
  ok : A → Result A
  err : Error → Result A

pub ok_inj : {A : Type 0} {u v : A} → ok u ≡ ok v → u ≡ v
ok_inj e = cc

abbrev pub Tx : Type 0 → Type 0
Tx A = Database → Result (A × Database)

unfoldable pub pure : {A : Type 0} → A → Tx A
pure a d = ok (a, d)

unfoldable pub gets : {A : Type 0} → (Database → A) → Tx A
gets f d = ok (f d, d)

unfoldable pub modify : (Database → Database) → Tx (Unit {0})
modify f d = ok (tt, f d)

-- `if b { return e }`.
unfoldable pub throw_if : Bool → Error → Tx (Unit {0})
throw_if true e d = err e
throw_if false e d = ok (tt, d)

-- `if err := f(); err != nil { return err }` for an `f` that reads nothing but its arguments.
unfoldable pub check : Option Error → Tx (Unit {0})
check none d = ok (tt, d)
check (some e) d = err e

unfoldable pub or_throw : {A : Type 0} → Option A → Error → Tx A
or_throw none e d = err e
or_throw (some a) e d = ok (a, d)

-- A query for one row; `e` is what the caller makes of `pgx.ErrNoRows`.
unfoldable pub one : {A : Type 0} → (Database → Option A) → Error → Tx A
unfolding or_throw
one q e d = or_throw (q d) e d

-- Opening `◌>>=◌` opens the actions above too.
infixl 5 ◌>>=◌ ◌>>◌
unfoldable pub ◌>>=◌ : {A B : Type 0} → Tx A → (A → Tx B) → Tx B
unfolding pure gets modify throw_if check one
◌>>=◌ m f d = elim (m d) [ ok (a, d') ↦ f a d' | err e ↦ err e ]

abbrev pub ◌>>◌ : {A B : Type 0} → Tx A → Tx B → Tx B
m >> k = m >>= λ _. k

-- `ExecTx`: commit on success, roll back on an error.
unfoldable pub exec_tx : {A : Type 0} → Tx A → Database → Result A × Database
exec_tx m d = elim (m d) [ ok (a, d') ↦ (ok a, d') | err e ↦ (err e, d) ]

-- `exec_tx` keeps what the transaction keeps when it succeeds: a failure leaves the tables alone.
pub exec_tx-keeps :
    {A : Type 0} (P : Database → Type 0) (m : Tx A) (d : Database)
    → ((a : A) (d' : Database) → m d ≡ ok (a, d') → P d')
    → P d
    → P (exec_tx m d).1
unfolding exec_tx
exec_tx-keeps {A} P m d keep h = go (m d) refl
  where
    go :
        (r : Result (A × Database))
        → m d ≡ r
        → P (
            let x : Result A × Database = elim r [ ok (a, d') ↦ (ok a, d') | err e ↦ (err e, d) ] in
            x.1)
    go (ok (a, d')) e = keep a d' e
    go (err x) e = h

pub exec_tx_ok :
    {A : Type 0} (m : Tx A) (d : Database) {a : A} {d' : Database}
    → m d ≡ ok (a, d')
    → exec_tx m d ≡ (ok a, d')
unfolding exec_tx
exec_tx_ok m d e = rw (exec_tx, e) refl

pub exec_tx_err :
    {A : Type 0} (m : Tx A) (d : Database) {x : Error} → m d ≡ err x → exec_tx m d ≡ (err x, d)
unfolding exec_tx
exec_tx_err m d e = rw (exec_tx, e) refl
