-- ===== src/Competitions/Pairings.antt =====
-- In the schedule of `GenerateRoundRobin` (modules/competitions/fixtures.go) two entries meet once.
use ivyticketing.Base.{
  ℕ, zero, suc, ◌+◌, ◌-◌, ◌*◌, ◌/◌, ◌≤◌, ◌<◌, ◌≡◌, ◌≢◌, refl, sym, ap, ◌∙◌, Bool, false, ◌&&◌, ◌||◌,
  Option, none, some, List, [], ◌∷◌, ◌++◌, length, map, take, drop, count_where, ◌==◌, leb, arith,
  if◌then◌else◌, Bool-cases, inl, inr,
}
use mathlib.Core.Path.{subst}
use ivyticketing.Competitions.Bracket.{FixtureDraft}
use ivyticketing.Competitions.RoundRobin.{
  team, scheduled_match, pair_match, round_matches, rotate, rounds_from,
}
use ivyticketing.Competitions.Circle.{next_place, next_place_apart, hits}

abbrev pub is_entry : ℕ → Option ℕ → Bool
is_entry x none = false
is_entry x (some e) = e == x

-- A match between two entries, at home or away.
abbrev pub meets : ℕ → ℕ → FixtureDraft → Bool
meets x y f =
    (is_entry x f.home_entry_id && is_entry y f.away_entry_id)
    || (is_entry y f.home_entry_id && is_entry x f.away_entry_id)

abbrev pub meetings : ℕ → ℕ → List FixtureDraft → ℕ
meetings x y = count_where (meets x y)

pub count_where-append :
    (p : FixtureDraft → Bool) (xs ys : List FixtureDraft)
    → count_where p (xs ++ ys) ≡ count_where p xs + count_where p ys
count_where-append p [] ys = omega arith
count_where-append p (x ∷ xs) ys = ground (arith, count_where-append p xs ys)

-- The entry `x` stands at the place `p` of the first `n` and at no other.
pub record Stands (t : List (Option ℕ)) (n x p : ℕ) : Type 0 where
  pub inside : p < n
  pub here : team t p ≡ some x
  pub only : (i : ℕ) → i < n → team t i ≡ some x → i ≡ p

team-take : (k j : ℕ) (xs : List (Option ℕ)) → j < k → team (take k xs) j ≡ team xs j
unfolding team
team-take zero j xs h = absurd (omega (arith, h))
team-take (suc k) j [] h = refl
team-take (suc k) zero (x ∷ xs) h = refl
team-take (suc k) (suc j) (x ∷ xs) h = team-take k j xs (omega (arith, h))

team-drop : (j : ℕ) (xs : List (Option ℕ)) → team (drop 1 xs) j ≡ team xs (suc j)
unfolding team
team-drop j [] = refl
team-drop j (x ∷ xs) = refl

team-rotate :
    (t : List (Option ℕ)) (n j : ℕ)
    → suc (suc j) < n
    → team (rotate t n) (suc (suc j)) ≡ team t (suc j)
unfolding rotate team
team-rotate t n j h = team-take (n - 2) j (drop 1 t) (omega (arith, h)) ∙ team-drop j t

-- A rotation moves each team to its next place.
moved :
    (t : List (Option ℕ)) (n p : ℕ)
    → 1 < n
    → p < n
    → team (rotate t n) (next_place (n - 1) p) ≡ team t p
unfolding rotate team
moved t n zero w h = refl
moved t n (suc p) w h = elim (Bool-cases (suc p == n - 1)) [
  | inl e ↦
      let there : next_place (n - 1) (suc p) ≡ 1 = ground (arith, e) in
      let last : n - 1 ≡ suc p = ground (arith, e) in
      ap (team (rotate t n)) there ∙ ap (team t) last
  | inr e ↦
      let there : next_place (n - 1) (suc p) ≡ suc (suc p) = ground (arith, e) in
      ap (team (rotate t n)) there ∙ team-rotate t n p (ground (arith, e, h))
]

from_place :
    (t : List (Option ℕ)) (n x p i : ℕ)
    → 1 < n
    → ((j : ℕ) → j < n → team t j ≡ some x → j ≡ p)
    → i < n
    → team (rotate t n) i ≡ some x
    → i ≡ next_place (n - 1) p
unfolding rotate team
from_place t n x p zero w only h e = ground (arith, only 0 (omega (arith, h)) e)
from_place t n x p (suc zero) w only h e = ground (arith, only (n - 1) (omega (arith, h)) e, w)
from_place t n x p (suc (suc j)) w only h e =
    ground (arith, only (suc j) (omega (arith, h)) (sym (team-rotate t n j h) ∙ e), h)

pub Stands-rotate :
    (t : List (Option ℕ)) (n x p : ℕ)
    → 1 < n
    → Stands t n x p
    → Stands (rotate t n) n x (next_place (n - 1) p)
Stands-rotate t n x p w s = record {
  inside = ground (arith, w, s.inside);
  here = moved t n p w s.inside ∙ s.here;
  only = λ i h e. from_place t n x p i w s.only h e;
}

-- The pass `i` matches the places `p` and `q`.
abbrev met : ℕ → ℕ → ℕ → ℕ → ℕ
met m p q i = if ((i == p) && (m - i == q)) || ((i == q) && (m - i == p)) then 1 else 0

abbrev mets : ℕ → ℕ → ℕ → ℕ → ℕ → ℕ
mets m p q zero i = 0
mets m p q (suc k) i = met m p q i + mets m p q k (suc i)

meetings-pair_match :
    (x y round num : ℕ) (home away : Option ℕ)
    → meetings x y (pair_match round num home away) ≡ (
        if (is_entry x home && is_entry y away) || (is_entry y home && is_entry x away)
        then 1
        else 0)
unfolding pair_match scheduled_match
meetings-pair_match x y round num none away = refl
meetings-pair_match x y round num (some h) none = ground arith
meetings-pair_match x y round num (some h) (some a) = ground arith

pub is_entry-team :
    (t : List (Option ℕ)) (n x p i : ℕ) → Stands t n x p → i < n → is_entry x (team t i) ≡ (i == p)
is_entry-team t n x p i s h = elim (Bool-cases (i == p)) [
  | inl e ↦ rw e (ap (is_entry x) (ap (team t) (ground (arith, e)) ∙ s.here) ∙ ground arith)
  | inr e ↦ rw e (other (team t i) (λ f. absurd (ground (arith, e, s.only i h f))))
]
  where
    other : (o : Option ℕ) → o ≢ some x → is_entry x o ≡ false
    other none f = refl
    other (some a) f = elim (Bool-cases (a == x)) [
      | inr g ↦ g
      | inl g ↦ absurd (f (ap some (ground (arith, g))))
    ]

-- Over the passes of a round, two places are matched where they are opposite.
mets_from :
    (h p q k i : ℕ)
    → p ≤ 2 * h + 1
    → q ≤ 2 * h + 1
    → p ≢ q
    → i + k ≡ h + 1
    → mets (2 * h + 1) p q k i ≡ (if (p + q == 2 * h + 1) && (leb i p && leb i q) then 1 else 0)
mets_from h p q zero i a b d e = ground (arith, e)
mets_from h p q (suc k) i a b d e =
    let ih = mets_from h p q k (suc i) a b d (omega (arith, e)) in ground (arith, e, ih)

module _ (n x y : ℕ) where
  meetings-round_matches :
      (t : List (Option ℕ)) (p q : ℕ)
      → Stands t n x p
      → Stands t n y q
      → (round k i num : ℕ) → i + k ≤ n
      → meetings x y (round_matches t n round k i num) ≡ mets (n - 1) p q k i
  unfolding round_matches
  meetings-round_matches t p q s r round zero i num w = refl
  meetings-round_matches t p q s r round (suc k) i num w =
      let ms = pair_match round num (team t i) (team t (n - 1 - i)) in
      count_where-append (meets x y) ms (round_matches t n round k (suc i) (num + length ms))
      ∙ ap (λ (c : ℕ). c + meetings x y (round_matches t n round k (suc i) (num + length ms)))
          (meetings-pair_match x y round num (team t i) (team t (n - 1 - i)) ∙ first)
      ∙ ap (λ (c : ℕ). met (n - 1) p q i + c)
          (meetings-round_matches t p q s r round k (suc i) (num + length ms) (omega (arith, w)))
    where
      first :
          (if (is_entry x (team t i) && is_entry y (team t (n - 1 - i)))
              || (is_entry y (team t i) && is_entry x (team t (n - 1 - i)))
            then 1
            else 0)
          ≡ met (n - 1) p q i
      first =
          rw
            (
              is_entry-team t n x p i s (omega (arith, w)),
              is_entry-team t n y q i r (omega (arith, w)),
              is_entry-team t n x p (n - 1 - i) s (omega (arith, w)),
              is_entry-team t n y q (n - 1 - i) r (omega (arith, w)),
            )
            (ground arith)

  pub meetings-rounds_from :
      (h : ℕ)
      → n ≡ 2 * h + 2
      → (t : List (Option ℕ)) (p q k round num : ℕ) → Stands t n x p
      → Stands t n y q
      → p ≢ q
      → meetings x y (rounds_from t n k round num) ≡ hits (2 * h + 1) k p q
  unfolding rounds_from
  meetings-rounds_from h e t p q zero round num s r d = refl
  meetings-rounds_from h e t p q (suc k) round num s r d =
      let ms = round_matches t n round (n / 2) 0 num in
      let m : n - 1 ≡ 2 * h + 1 = omega (arith, e) in
      let a : p ≤ 2 * h + 1 = omega (arith, e, s.inside) in
      let b : q ≤ 2 * h + 1 = omega (arith, e, r.inside) in
      let half : n / 2 ≡ h + 1 = omega (arith, e) in
      let now : meetings x y ms ≡ (if p + q == 2 * h + 1 then 1 else 0) =
        meetings-round_matches t p q s r round (n / 2) 0 num (omega (arith, half, e))
        ∙ ap (λ (v : ℕ). mets v p q (n / 2) 0) m
        ∙ ap (λ (v : ℕ). mets (2 * h + 1) p q v 0) half
        ∙ mets_from h p q (h + 1) 0 a b d (omega arith)
        ∙ ground arith in
      let ih : meetings x y (rounds_from (rotate t n) n k (suc round) (num + length ms))
          ≡ hits (2 * h + 1) k (next_place (2 * h + 1) p) (next_place (2 * h + 1) q) =
        meetings-rounds_from h e (rotate t n) (next_place (2 * h + 1) p) (next_place (2 * h + 1) q)
          k (suc round) (num + length ms)
          (subst (λ v. Stands (rotate t n) n x (next_place v p)) m
            (Stands-rotate t n x p (omega (arith, e)) s))
          (subst (λ v. Stands (rotate t n) n y (next_place v q)) m
            (Stands-rotate t n y q (omega (arith, e)) r))
          (next_place_apart h p q a b d).2 in
      count_where-append (meets x y) ms (rounds_from (rotate t n) n k (suc round) (num + length ms))
      ∙ ap
          (λ (c : ℕ). c + meetings x y (rounds_from (rotate t n) n k (suc round) (num + length ms)))
          now
      ∙ ap (λ (c : ℕ). (if p + q == 2 * h + 1 then 1 else 0) + c) ih

-- The places of the entries before the first round; `d` stands for the dummy.
module _ (d : List (Option ℕ)) (x : ℕ) (empty : (i : ℕ) → team d i ≢ some x) where
  absent :
      (es : List ℕ) (i : ℕ) → count_where (λ e. e == x) es ≡ 0 → team (map some es ++ d) i ≢ some x
  unfolding team
  absent [] i c = empty i
  absent (e ∷ es) zero c = λ f. absurd (ground (arith, c, f))
  absent (e ∷ es) (suc i) c = absent es i (ground (arith, c))

  pub start-Stands :
      (es : List ℕ)
      → count_where (λ e. e == x) es ≡ 1
      → (p : ℕ) × (p < length es)
        × (team (map some es ++ d) p ≡ some x)
        × ((i : ℕ) → team (map some es ++ d) i ≡ some x → i ≡ p)
  unfolding team
  start-Stands [] c = absurd (omega (arith, c))
  start-Stands (e ∷ es) c = elim (Bool-cases (e == x)) [
    | inl f ↦ (0, omega arith, ap some (ground (arith, f)), λ i g. first (ground (arith, c, f)) i g)
    | inr f ↦
        (let (p, inside, here, only) = start-Stands es (ground (arith, c, f)) in
          (suc p, omega (arith, inside), here, λ i g. later p only (ground (arith, f)) i g))
  ]
    where
      first :
          count_where (λ e. e == x) es ≡ 0
          → (i : ℕ) → team (some e ∷ map some es ++ d) i ≡ some x
          → i ≡ 0
      first z zero g = refl
      first z (suc i) g = absurd (absent es i z g)

      later :
          (p : ℕ)
          → ((i : ℕ) → team (map some es ++ d) i ≡ some x → i ≡ p)
          → e ≢ x
          → (i : ℕ) → team (some e ∷ map some es ++ d) i ≡ some x
          → i ≡ suc p
      later p only f zero g = absurd (ground (arith, f, g))
      later p only f (suc i) g = ap suc (only i g)
