-- ===== src/Competitions/Seeding.antt =====
-- The order of the seeds (modules/competitions/fixtures.go).
use ivyticketing.Base.{
  ℕ, zero, suc, ◌+◌, ◌-◌, ◌*◌, ◌/◌, ◌≤◌, ◌<◌, ◌≡◌, refl, ◌∙◌, ◌==◌, List, [], ◌∷◌, arith, length,
  All, count_where, leb, inl, inr, Bool-cases,
}
use ivyticketing.Competitions.Bracket.{interleave, seed_order, bracket_seed_order}

-- The powers of two from 2 on.
abbrev pub power : ℕ → ℕ
power zero = 2
power (suc k) = power k * 2

pub power_le : (k : ℕ) → 2 ≤ power k
power_le zero = omega arith
power_le (suc k) = omega (arith, power_le k)

suc_le_power : (k : ℕ) → suc k ≤ power k
suc_le_power zero = omega arith
suc_le_power (suc k) = omega (arith, suc_le_power k)

-- The order of the seeds without the fuel.
order : ℕ → List ℕ
order zero = 1 ∷ 2 ∷ []
order (suc k) = interleave (power (suc k)) (order k)

half_power : (k : ℕ) → power (suc k) / 2 ≡ power k
half_power k = omega arith

seed_order-order : (fuel k : ℕ) → k < fuel → seed_order fuel (power k) ≡ order k
unfolding seed_order order
seed_order-order zero k h = absurd (omega arith)
seed_order-order (suc fuel) zero h = refl
seed_order-order (suc fuel) (suc k) h =
    rw (half_power k, seed_order-order fuel k (omega arith)) (ground (arith, power_le k))

abbrev pub IsSeed : ℕ → ℕ → Type 0
IsSeed h v = (1 ≤ v) × (v ≤ h)

-- The seed `x` is somewhere else.
count_outside :
    (h x : ℕ) (vs : List ℕ) → All (IsSeed h) vs → h < x → count_where (λ v. v == x) vs ≡ 0
count_outside h x [] a q = refl
count_outside h x (v ∷ vs) a q = ground (arith, a.0.1, count_outside h x vs a.1 q)

count-interleave :
    (p h x : ℕ) (vs : List ℕ)
    → All (IsSeed h) vs
    → h ≤ p
    → x ≤ p
    → count_where (λ v. v == x) (interleave p vs)
      ≡ count_where (λ v. v == x) vs + count_where (λ v. v == p + 1 - x) vs
unfolding interleave
count-interleave p h x [] a q r = refl
count-interleave p h x (v ∷ vs) a q r =
    ground (arith, a.0.0, a.0.1, count-interleave p h x vs a.1 q r)

interleave-seeds :
    (p h : ℕ) (vs : List ℕ) → All (IsSeed h) vs → h ≤ p → All (IsSeed p) (interleave p vs)
unfolding interleave
interleave-seeds p h [] a q = tt
interleave-seeds p h (v ∷ vs) a q = (
  (omega (arith, a.0.0), omega (arith, a.0.1)),
  ((omega (arith, a.0.1), omega (arith, a.0.0)), interleave-seeds p h vs a.1 q),
)

order-seeds : (k : ℕ) → All (IsSeed (power k)) (order k)
unfolding order
order-seeds zero = ((omega arith, omega arith), ((omega arith, omega arith), tt))
order-seeds (suc k) =
    interleave-seeds (power (suc k)) (power k) (order k) (order-seeds k) (omega arith)

order_once : (k x : ℕ) → 1 ≤ x → x ≤ power k → count_where (λ v. v == x) (order k) ≡ 1
unfolding order
order_once zero x p q = ground arith
order_once (suc k) x p q =
    count-interleave (power (suc k)) (power k) x (order k) (order-seeds k) (omega arith) q
    ∙ elim (Bool-cases (leb x (power k))) [
      | inl e ↦ omega (
        arith,
        order_once k x p (ground (arith, e)),
        count_outside (power k) (power (suc k) + 1 - x) (order k) (order-seeds k)
            (ground (arith, e)),
      )
      | inr e ↦ omega (
        arith,
        order_once k (power (suc k) + 1 - x) (omega arith) (ground (arith, e)),
        count_outside (power k) x (order k) (order-seeds k) (ground (arith, e)),
      )
    ]

-- In the order of the seeds of a bracket of 2, 4, 8, … places, every seed stands exactly once.
pub bracket_seed_order_once :
    (k x : ℕ) → 1 ≤ x → x ≤ power k → count_where (λ v. v == x) (bracket_seed_order (power k)) ≡ 1
unfolding bracket_seed_order
bracket_seed_order_once k x p q =
    rw (seed_order-order (power k) k (suc_le_power k)) (order_once k x p q)

-- Neighbours meet in the first round: their seeds add up to `p + 1`, and the better one is at home.
abbrev pub Paired : ℕ → List ℕ → Type 0
Paired p (h ∷ a ∷ xs) = (h + a ≡ p + 1) × (h < a) × Paired p xs
Paired p (x ∷ []) = ⊥
Paired p [] = Unit

interleave-Paired :
    (p h : ℕ) (vs : List ℕ) → All (IsSeed h) vs → h + h ≤ p → Paired p (interleave p vs)
unfolding interleave
interleave-Paired p h [] a q = tt
interleave-Paired p h (v ∷ vs) a q =
    (omega (arith, a.0.1), omega (arith, a.0.1), interleave-Paired p h vs a.1 q)

order-Paired : (k : ℕ) → Paired (power k) (order k)
unfolding order
order-Paired zero = (refl, omega arith, tt)
order-Paired (suc k) =
    interleave-Paired (power (suc k)) (power k) (order k) (order-seeds k) (omega arith)

-- In the first round of a bracket of 2, 4, 8, … places, the best seed meets the worst, the second
-- best the second worst and so on, with the better seed at home.
pub bracket_seed_order-Paired : (k : ℕ) → Paired (power k) (bracket_seed_order (power k))
unfolding bracket_seed_order
bracket_seed_order-Paired k = rw (seed_order-order (power k) k (suc_le_power k)) (order-Paired k)

pub bracket_seed_order-seeds : (k : ℕ) → All (IsSeed (power k)) (bracket_seed_order (power k))
unfolding bracket_seed_order
bracket_seed_order-seeds k = rw (seed_order-order (power k) k (suc_le_power k)) (order-seeds k)

length-interleave : (p : ℕ) (vs : List ℕ) → length (interleave p vs) ≡ length vs * 2
unfolding interleave
length-interleave p [] = refl
length-interleave p (v ∷ vs) = omega (arith, length-interleave p vs)

length-order : (k : ℕ) → length (order k) ≡ power k
unfolding order
length-order zero = refl
length-order (suc k) = omega (arith, length-interleave (power (suc k)) (order k), length-order k)

pub length-bracket_seed_order : (k : ℕ) → length (bracket_seed_order (power k)) ≡ power k
unfolding bracket_seed_order
length-bracket_seed_order k = rw (seed_order-order (power k) k (suc_le_power k)) (length-order k)
