-- ===== src/Competitions/Byes.antt =====
-- The byes of a single elimination bracket (modules/competitions/fixtures.go).
use ivyticketing.Base.{
  ℕ, zero, suc, ◌+◌, ◌-◌, ◌/◌, ◌^◌, ◌≤◌, ◌<◌, ◌≡◌, refl, ◌∙◌, ap, ◌==◌, none, some, List, [], ◌∷◌,
  ◌++◌, arith, length, get_elem?, All, count_where, ltb, leb, inl, inr, Bool-cases,
}
use ivyticketing.Competitions.Bracket.{
  FixtureDraft, bracket_seed_order, double_until, seed_map, first_round_match, first_round,
  later_round, later_rounds, bracket_of, generate_single_elimination, rounds_of,
}
use ivyticketing.Competitions.Seeding.{
  power, power_le, IsSeed, Paired, bracket_seed_order_once, bracket_seed_order-Paired,
  bracket_seed_order-seeds, length-bracket_seed_order,
}

count_none : (h : ℕ) (vs : List ℕ) → All (IsSeed h) vs → count_where (λ v. leb v 0) vs ≡ 0
count_none h [] a = refl
count_none h (v ∷ vs) a = ground (arith, a.0.0, count_none h vs a.1)

count_step :
    (m : ℕ) (vs : List ℕ)
    → count_where (λ v. leb v (suc m)) vs
      ≡ count_where (λ v. leb v m) vs + count_where (λ v. v == suc m) vs
count_step m [] = refl
count_step m (v ∷ vs) = ground (arith, count_step m vs)

count_upto : (k m : ℕ) → m ≤ power k → count_where (λ v. leb v m) (bracket_seed_order (power k)) ≡ m
count_upto k zero h = count_none (power k) _ (bracket_seed_order-seeds k)
count_upto k (suc m) h = omega (
  arith,
  count_step m (bracket_seed_order (power k)),
  count_upto k m (omega arith),
  bracket_seed_order_once k (suc m) (omega arith) h,
)

count_above :
    (m : ℕ) (vs : List ℕ)
    → count_where (λ v. ltb m v) vs + count_where (λ v. leb v m) vs ≡ length vs
count_above m [] = refl
count_above m (v ∷ vs) = ground (arith, count_above m vs)

get_elem?_within : (es : List ℕ) (i : ℕ) → i < length es → (x : ℕ) × (get_elem? es i ≡ some x)
get_elem?_within [] i h = absurd (omega arith)
get_elem?_within (e ∷ es) zero h = (e, refl)
get_elem?_within (e ∷ es) (suc i) h = get_elem?_within es i (omega arith)

get_elem?_beyond : (es : List ℕ) (i : ℕ) → length es ≤ i → get_elem? es i ≡ none
get_elem?_beyond [] i h = refl
get_elem?_beyond (e ∷ es) zero h = absurd (omega arith)
get_elem?_beyond (e ∷ es) (suc i) h = get_elem?_beyond es i (omega arith)

seed_map_within : (es : List ℕ) (s : ℕ) → 1 ≤ s → s ≤ length es → (x : ℕ) × (seed_map es s ≡ some x)
unfolding seed_map
seed_map_within es zero p q = absurd (omega arith)
seed_map_within es (suc s) p q = get_elem?_within es s (omega arith)

seed_map_beyond : (es : List ℕ) (s : ℕ) → length es < s → seed_map es s ≡ none
unfolding seed_map
seed_map_beyond es zero q = absurd (omega arith)
seed_map_beyond es (suc s) q = get_elem?_beyond es s (omega arith)

is_bye_match :
    (es : List ℕ) (m h a : ℕ)
    → 1 ≤ h
    → h ≤ length es
    → 1 ≤ a
    → (first_round_match m (seed_map es h) (seed_map es a)).is_bye ≡ ltb (length es) a
unfolding first_round_match
is_bye_match es m h a p q r =
    let (x, e) = seed_map_within es h p q in
    elim (Bool-cases (ltb (length es) a)) [
      | inl b ↦ rw (e, b, seed_map_beyond es a (ground (arith, b))) refl
      | inr b ↦ let (y, f) = seed_map_within es a r (ground (arith, b)) in rw (e, f, b) refl
    ]

unfoldable pub byes : List FixtureDraft → ℕ
byes = count_where (λ f. f.is_bye)

byes-first_round :
    (es : List ℕ) (p m : ℕ) (vs : List ℕ)
    → p < length es + length es
    → Paired p vs
    → All (IsSeed p) vs
    → byes (first_round es m vs) ≡ count_where (λ v. ltb (length es) v) vs
unfolding byes first_round
byes-first_round es p m [] l q a = refl
byes-first_round es p m (x ∷ []) l q a = absurd q
byes-first_round es p m (h ∷ x ∷ vs) l (q, r, s) a =
    let here = is_bye_match es m h x a.0.0 (omega arith) a.1.0.0 in
    ground (arith, here, byes-first_round es p (m + 1) vs l s a.1.1)

byes-later_round : (ds : List FixtureDraft) (r count m : ℕ) → byes (later_round ds r count m) ≡ 0
unfolding byes later_round
byes-later_round ds r zero m = refl
byes-later_round ds r (suc count) m = omega (arith, byes-later_round ds r count (m + 1))

byes-append : (xs ys : List FixtureDraft) → byes (xs ++ ys) ≡ byes xs + byes ys
unfolding byes
byes-append [] ys = omega arith
byes-append (x ∷ xs) ys = omega (arith, byes-append xs ys)

byes-later_rounds : (ds : List FixtureDraft) (p count r : ℕ) → byes (later_rounds ds p count r) ≡ 0
unfolding later_rounds
byes-later_rounds ds p zero r = unfold byes in refl
byes-later_rounds ds p (suc count) r =
    byes-append (later_round ds r _ 1) _
    ∙ omega (arith, byes-later_round ds r (p / 2 ^ r) 1, byes-later_rounds ds p count (r + 1))

byes-bracket_of :
    (es : List ℕ) (k : ℕ)
    → power k < length es + length es
    → length es ≤ power k
    → byes (bracket_of es (power k)) ≡ power k - length es
unfolding bracket_of
byes-bracket_of es k l h =
    byes-append (first_round es 1 (bracket_seed_order (power k))) _
    ∙ omega (
      arith,
      byes-first_round es (power k) 1 (bracket_seed_order (power k)) l (bracket_seed_order-Paired k)
          (bracket_seed_order-seeds k),
      byes-later_rounds (first_round es 1 (bracket_seed_order (power k))) (power k)
          (rounds_of (power k) (power k) - 1) 2,
      count_above (length es) (bracket_seed_order (power k)),
      count_upto k (length es) h,
      length-bracket_seed_order k,
    )

-- The fuel is enough: the size of the bracket is the least power of two that holds all entries.
double_until-power :
    (fuel j n : ℕ)
    → power j < n + n
    → n ≤ power j + fuel
    → (k : ℕ) × (double_until fuel (power j) n ≡ power k) × (n ≤ power k) × (power k < n + n)
unfolding double_until
double_until-power zero j n l h = (j, refl, omega arith, l)
double_until-power (suc fuel) j n l h = elim (Bool-cases (ltb (power j) n)) [
  | inl e ↦
      let (k, q, a, b) =
        double_until-power fuel (suc j) n (ground (arith, e)) (omega (arith, power_le j)) in
      (k, rw e q, a, b)
  | inr e ↦ (j, rw e refl, ground (arith, e), l)
]

generate_single_elimination-bracket :
    (entries : List ℕ)
    → 2 ≤ length entries
    → generate_single_elimination entries
      ≡ bracket_of entries (double_until (length entries) 2 (length entries))
unfolding generate_single_elimination
generate_single_elimination-bracket entries h = ground arith

-- The bracket of `n` entries, two at least, has 2, 4, 8, … places, namely the least such number
-- that holds them all, and it has one bye for each place without an entry.
pub generate_single_elimination-byes :
    (entries : List ℕ)
    → 2 ≤ length entries
    → (k : ℕ) × (length entries ≤ power k)
      × (power k < length entries + length entries)
      × (byes (generate_single_elimination entries) ≡ power k - length entries)
generate_single_elimination-byes entries h =
    let (k, q, a, b) =
      double_until-power (length entries) 0 (length entries) (omega arith) (omega arith) in
    (
      k,
      a,
      b,
      ap byes (generate_single_elimination-bracket entries h ∙ ap (bracket_of entries) q)
          ∙ byes-bracket_of entries k b a,
    )
