-- ===== src/Capacity/Spares.antt =====
-- The transactions that write none of the three tables of the invariant (of tickets and payments).
use mathlib.Core.Path.{subst₃}
use ivyticketing.Base.{ℕ, ◌≡◌, sym}
use ivyticketing.Store.Rows.{Database}
use ivyticketing.Store.Tx.{Tx, ok, ◌>>=◌}
use ivyticketing.Store.Post.{Post, Post-bind}
use ivyticketing.Capacity.Invariant.{Fits, IsValid, IsBelow, IsBelow-same}

abbrev pub SameTables : Database → Database → Type 0
SameTables d d' =
    (d'.categories ≡ d.categories) × (d'.orders ≡ d.orders) × (d'.reservations ≡ d.reservations)

pub record Spares {A : Type 0} (m : Tx A) : Type 0 where
  pub at : (d : Database) (a : A) (d' : Database) → m d ≡ ok (a, d') → SameTables d d'

pub IsBelow-Spares :
    {a t : ℕ → ℕ} (d d' : Database) → SameTables d d' → IsBelow a t d → IsBelow a t d'
IsBelow-Spares d d' (p, q, r) v = IsBelow-same d d' p q r v

pub IsValid-Spares : (d d' : Database) → SameTables d d' → IsValid d → IsValid d'
IsValid-Spares d d' (p, q, r) v = subst₃ Fits (sym p) (sym q) (sym r) v

-- In a block, the rest may rely on what speaks of those tables only.
pub Post-spares :
    {A B : Type 0} {Q : B → Database → Type 0} (P : Database → Type 0) (m : Tx A) (f : A → Tx B)
    (d : Database)
    → ((d d' : Database) → SameTables d d' → P d → P d')
    → Spares m
    → P d
    → ((a : A) (d' : Database) → P d' → Post (f a) d' Q)
    → Post (m >>= f) d Q
Post-spares P m f d same s v pf =
    Post-bind (λ _ d'. P d') m f d (record { at = λ a d' h. same d d' (s.at d a d' h) v })
      (λ a d' w. pf a d' w)
