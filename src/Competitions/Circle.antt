-- ===== src/Competitions/Circle.antt =====
-- The circle of `GenerateRoundRobin` (modules/competitions/fixtures.go) by the places of two teams: in
-- `2 * h + 1` rounds they stand opposite each other once.
use ivyticketing.Base.{
  ℕ, zero, suc, ◌+◌, ◌-◌, ◌*◌, ◌/◌, ◌%◌, ◌≤◌, ◌<◌, ◌≡◌, ◌≢◌, sym, ap, ◌∙◌, ◌==◌, arith, ltb,
  if◌then◌else◌, Bool-cases, inl, inr,
}

-- The place of the team at `p`, of the places up to `m`, after a rotation.
abbrev pub next_place : ℕ → ℕ → ℕ
next_place m p = if p == 0 then 0 else if p == m then 1 else p + 1

-- In how many of `k` rounds two places are opposite.
abbrev pub hits : ℕ → ℕ → ℕ → ℕ → ℕ
hits m zero p q = 0
hits m (suc k) p q = (if p + q == m then 1 else 0) + hits m k (next_place m p) (next_place m q)

-- The rounds to go until they are.
abbrev pub wait_for : ℕ → ℕ → ℕ → ℕ
wait_for m p q =
    if p == 0
    then m - q
    else if q == 0
    then m - p
    else if (p + q) % 2 == 0
    then (2 * m - (p + q)) / 2
    else if ltb m (p + q)
    then (3 * m - (p + q)) / 2
    else (m - (p + q)) / 2

wait_step :
    (h p q : ℕ)
    → p ≤ 2 * h + 1
    → q ≤ 2 * h + 1
    → p ≢ q
    → p + q ≢ 2 * h + 1
    → wait_for (2 * h + 1) p q
      ≡ suc (wait_for (2 * h + 1) (next_place (2 * h + 1) p) (next_place (2 * h + 1) q))
wait_step h zero q a b d e = elim (Bool-cases (q == 2 * h + 1)) [
  | inl f ↦ ground (arith, f)
  | inr f ↦ rw f (ground (arith, f))
]
wait_step h (suc p) zero a b d e = elim (Bool-cases (suc p == 2 * h + 1)) [
  | inl f ↦ ground (arith, f)
  | inr f ↦ rw f (ground (arith, f))
]
wait_step h (suc p) (suc q) a b d e = elim (Bool-cases (suc p == 2 * h + 1)) [
  | inl f ↦ elim (Bool-cases (suc q == 2 * h + 1)) [
    | inl g ↦ ground (arith, f, g)
    | inr g ↦ rw (f, g) (ground (arith, f, g))
  ]
  | inr f ↦ elim (Bool-cases (suc q == 2 * h + 1)) [
    | inl g ↦ rw (f, g) (ground (arith, f, g))
    | inr g ↦ rw (f, g) (ground (arith, f, g))
  ]
]

wait_again :
    (h p q : ℕ)
    → p ≤ 2 * h + 1
    → q ≤ 2 * h + 1
    → p ≢ q
    → p + q ≡ 2 * h + 1
    → (wait_for (2 * h + 1) p q ≡ 0)
      × (wait_for (2 * h + 1) (next_place (2 * h + 1) p) (next_place (2 * h + 1) q) ≡ 2 * h)
wait_again h p q a b d e = (ground arith, ground arith)

pub next_place_apart :
    (h p q : ℕ)
    → p ≤ 2 * h + 1
    → q ≤ 2 * h + 1
    → p ≢ q
    → (next_place (2 * h + 1) p ≤ 2 * h + 1)
      × (next_place (2 * h + 1) q ≤ 2 * h + 1)
      × (next_place (2 * h + 1) p ≢ next_place (2 * h + 1) q)
next_place_apart h p q a b d = (ground arith, ground arith, ground arith)

-- The number of hits, by the rounds to go.
abbrev once_of : ℕ → ℕ → ℕ
once_of w k = if ltb w k then 1 else 0

once_of-zero : (w : ℕ) → once_of w 0 ≡ 0
once_of-zero w = ground arith

once_of-suc : (w k : ℕ) → 0 + once_of w k ≡ once_of (suc w) (suc k)
once_of-suc w k = ground arith

once_of-now : (w v k : ℕ) → w ≡ 0 → k ≤ v → 1 + once_of v k ≡ once_of w (suc k)
once_of-now w v k e f = ground (arith, e, f)

once_of-in : (w k : ℕ) → w < k → once_of w k ≡ 1
once_of-in w k e = ground (arith, e)

hits-wait_for :
    (h k p q : ℕ)
    → k ≤ 2 * h + 1
    → p ≤ 2 * h + 1
    → q ≤ 2 * h + 1
    → p ≢ q
    → hits (2 * h + 1) k p q ≡ once_of (wait_for (2 * h + 1) p q) k
hits-wait_for h zero p q c a b d = sym (once_of-zero (wait_for (2 * h + 1) p q))
hits-wait_for h (suc k) p q c a b d =
    let (a', b', d') = next_place_apart h p q a b d in
    let ih =
      hits-wait_for h k (next_place (2 * h + 1) p) (next_place (2 * h + 1) q) (omega (arith, c)) a'
        b' d' in
    elim (Bool-cases (p + q == 2 * h + 1)) [
      | inl e ↦
          let (now, again) = wait_again h p q a b d (ground (arith, e)) in
          rw e (
            ap (λ (t : ℕ). 1 + t) ih
            ∙ once_of-now (wait_for (2 * h + 1) p q)
                (wait_for (2 * h + 1) (next_place (2 * h + 1) p) (next_place (2 * h + 1) q)) k now
                (omega (arith, again, c)))
      | inr e ↦ rw e (
          ap (λ (t : ℕ). 0 + t) ih
          ∙ once_of-suc (wait_for (2 * h + 1) (next_place (2 * h + 1) p) (next_place (2 * h + 1) q))
              k
          ∙ ap (λ (w : ℕ). once_of w (suc k)) (sym (wait_step h p q a b d (ground (arith, e)))))
    ]

wait-small : (h p q : ℕ) → p ≤ 2 * h + 1 → q ≤ 2 * h + 1 → p ≢ q → wait_for (2 * h + 1) p q ≤ 2 * h
wait-small h p q a b d = ground arith

-- Of `2 * h + 1` rounds, one.
pub hits_once :
    (h p q : ℕ) → p ≤ 2 * h + 1 → q ≤ 2 * h + 1 → p ≢ q → hits (2 * h + 1) (2 * h + 1) p q ≡ 1
hits_once h p q a b d =
    hits-wait_for h (2 * h + 1) p q (omega arith) a b d
    ∙ once_of-in (wait_for (2 * h + 1) p q) (2 * h + 1) (omega (arith, wait-small h p q a b d))
