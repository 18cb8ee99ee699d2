-- ===== src/Store/Post.antt =====
-- What a transaction promises when it succeeds, with one rule for each action of Store/Tx.
use ivyticketing.Base.{◌≡◌, refl, sym, Bool, true, false, Option, none, some}
use mathlib.Core.Path.{subst}
use ivyticketing.Store.Rows.{Database}
use ivyticketing.Store.Tx.{
  ok_inj, Tx, Result, ok, err, Error, pure, gets, modify, throw_if, check, or_throw, one, ◌>>=◌,
  ◌>>◌,
}

-- If `m` succeeds at `d`, its value and its tables are in `Q`.
pub record Post {A : Type 0} (m : Tx A) (d : Database) (Q : A → Database → Type 0) : Type 0 where
  pub at : (a : A) (d' : Database) → m d ≡ ok (a, d') → Q a d'

-- `m` leaves the tables as they are.
pub record Reads {A : Type 0} (m : Tx A) : Type 0 where
  pub same : (d : Database) (a : A) (d' : Database) → m d ≡ ok (a, d') → d' ≡ d

module _ {A : Type 0} {Q : A → Database → Type 0} where
  pub Post-pure : (a : A) (d : Database) → Q a d → Post (pure a) d Q
  unfolding ◌>>=◌
  Post-pure a d q = record { at = λ b d' e. subst (λ p. Q p.0 p.1) (ok_inj (a, d) (b, d') e) q }
    where
      ok_inj : (u v : A × Database) → ok u ≡ ok v → u ≡ v
      ok_inj u v e = cc

bind_at :
    {A B : Type 0} (r : Result (A × Database)) (f : A → Tx B) {b : B} {d' : Database}
    → (elim r as (λ _. Result (B × Database)) [ ok (a, d') ↦ f a d' | err e ↦ err e ]) ≡ ok (b, d')
    → (a : A) × (d'' : Database) × (r ≡ ok (a, d'')) × (f a d'' ≡ ok (b, d'))
bind_at (ok (a, d'')) f e = (a, d'', refl, e)
bind_at (err x) f e = cc

one_at :
    {A : Type 0} (o : Option A) (e : Error) (d : Database) {a : A} {d' : Database}
    → or_throw o e d ≡ ok (a, d')
    → (o ≡ some a) × (d' ≡ d)
unfolding or_throw
one_at none e d h = cc
one_at (some b) e d h = (cc, cc)

module _ {A B : Type 0} {Q : B → Database → Type 0} where
  pub Post-bind :
      (P : A → Database → Type 0) (m : Tx A) (f : A → Tx B) (d : Database)
      → Post m d P
      → ((a : A) (d' : Database) → P a d' → Post (f a) d' Q)
      → Post (m >>= f) d Q
  unfolding ◌>>=◌
  Post-bind P m f d pm pf = record {
    at = λ b d' e.
        let (a, d'', em, ef) = bind_at (m d) f e in (pf a d'' (pm.at a d'' em)).at b d' ef;
  }

  -- The rest of the block as the promise of `m`: for a lemma about `m` alone.
  pub Post-call :
      (m : Tx A) (f : A → Tx B) (d : Database)
      → Post m d (λ a d'. Post (f a) d' Q)
      → Post (m >>= f) d Q
  Post-call m f d p = Post-bind _ m f d p (λ a d' h. h)

  pub Post-read :
      (m : Tx A) (f : A → Tx B) (d : Database)
      → Reads m
      → ((a : A) → m d ≡ ok (a, d) → Post (f a) d Q)
      → Post (m >>= f) d Q
  Post-read m f d r pf =
      Post-bind (λ a d'. (m d ≡ ok (a, d)) × (d' ≡ d)) m f d
        (record {
          at = λ a d' e. (subst (λ x. m d ≡ ok (a, x)) (r.same d a d' e) e, r.same d a d' e);
        })
        (λ a d' h. subst (λ x. Post (f a) x Q) (sym h.1) (pf a h.0))

  pub Post-one :
      (q : Database → Option A) (e : Error) (f : A → Tx B) (d : Database)
      → ((a : A) → q d ≡ some a → Post (f a) d Q)
      → Post (one q e >>= f) d Q
  unfolding one
  Post-one q e f d pf =
      Post-bind (λ a d'. (q d ≡ some a) × (d' ≡ d)) (one q e) f d
        (record { at = λ a d' h. one_at (q d) e d h })
        (λ a d' h. subst (λ x. Post (f a) x Q) (sym h.1) (pf a h.0))

  pub Post-gets :
      (g : Database → A) (f : A → Tx B) (d : Database)
      → Post (f (g d)) d Q
      → Post (gets g >>= f) d Q
  unfolding ◌>>=◌
  Post-gets g f d p = record { at = λ b d' e. p.at b d' e }

module _ {B : Type 0} {Q : B → Database → Type 0} where
  pub Post-modify :
      (g : Database → Database) (k : Tx B) (d : Database)
      → Post k (g d) Q
      → Post (modify g >> k) d Q
  unfolding ◌>>=◌
  Post-modify g k d p = record { at = λ b d' e. p.at b d' e }

  pub Post-throw_if :
      (b : Bool) (e : Error) (k : Tx B) (d : Database)
      → (b ≡ false → Post k d Q)
      → Post (throw_if b e >> k) d Q
  unfolding ◌>>=◌
  Post-throw_if true e k d p = record { at = λ b d' h. cc }
  Post-throw_if false e k d p = record { at = λ b d' h. (p refl).at b d' h }

  pub Post-check :
      (x : Option Error) (k : Tx B) (d : Database)
      → (x ≡ none → Post k d Q)
      → Post (check x >> k) d Q
  unfolding ◌>>=◌
  Post-check none k d p = record { at = λ b d' h. (p refl).at b d' h }
  Post-check (some e) k d p = record { at = λ b d' h. cc }

pub Post-modify_last :
    {Q : Unit {0} → Database → Type 0} (g : Database → Database) (d : Database)
    → Q tt (g d)
    → Post (modify g) d Q
unfolding modify
Post-modify_last {Q} g d q = record { at = λ a d' h. subst (λ p. Q p.0 p.1) (ok_inj h) q }
