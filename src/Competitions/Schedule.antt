-- ===== src/Competitions/Schedule.antt =====
-- The schedule of `GenerateRoundRobin` (modules/competitions/fixtures.go): who meets whom, and when.
use ivyticketing.Base.{
  ℕ, zero, suc, ◌+◌, ◌-◌, ◌*◌, ◌/◌, ◌%◌, ◌≤◌, ◌<◌, ◌≡◌, ◌≢◌, refl, sym, ap, ◌∙◌, Bool, false, ◌&&◌,
  ◌||◌, Option, none, some, List, [], ◌∷◌, ◌++◌, length, map, count_where, ◌==◌, ltb, leb, arith,
  if◌then◌else◌, Bool-cases, inl, inr, length-append, length-map,
}
use ivyticketing.Competitions.Bracket.{FixtureDraft}
use ivyticketing.Competitions.RoundRobin.{
  team, scheduled_match, pair_match, round_matches, rotate, rounds_from, with_dummy,
  generate_round_robin,
}
use ivyticketing.Competitions.Circle.{next_place, hits, hits_once}
use ivyticketing.Competitions.Pairings.{
  is_entry, meetings, Stands, Stands-rotate, start-Stands, is_entry-team, count_where-append,
  meetings-rounds_from,
}

abbrev pub plays_in : ℕ → ℕ → FixtureDraft → Bool
plays_in x r f = (f.round_number == r) && (is_entry x f.home_entry_id || is_entry x f.away_entry_id)

abbrev pub games : ℕ → ℕ → List FixtureDraft → ℕ
games x r = count_where (plays_in x r)

games-pair_match :
    (x r round num : ℕ) (home away : Option ℕ)
    → games x r (pair_match round num home away)
      ≤ (if (round == r) && (is_entry x home || is_entry x away) then 1 else 0)
unfolding pair_match scheduled_match
games-pair_match x r round num none away = omega arith
games-pair_match x r round num (some h) none = omega arith
games-pair_match x r round num (some h) (some a) = ground arith

module _ (n x r : ℕ) where
  games-round_matches :
      (t : List (Option ℕ)) (p : ℕ)
      → Stands t n x p
      → (round k i num : ℕ) → 2 * (i + k) ≤ n
      → games x r (round_matches t n round k i num)
        ≤ (if (round == r) && (leb i p && leb p (n - 1 - i)) then 1 else 0)
  unfolding round_matches
  games-round_matches t p s round zero i num w = omega arith
  games-round_matches t p s round (suc k) i num w =
      let ms = pair_match round num (team t i) (team t (n - 1 - i)) in
      let rest = round_matches t n round k (suc i) (num + length ms) in
      ground (
        arith,
        w,
        s.inside,
        count_where-append (plays_in x r) ms rest,
        games-pair_match x r round num (team t i) (team t (n - 1 - i)),
        is_entry-team t n x p i s (omega (arith, w)),
        is_entry-team t n x p (n - 1 - i) s (omega (arith, w)),
        games-round_matches t p s round k (suc i) (num + length ms) (omega (arith, w)),
      )

  games-rounds_from :
      (t : List (Option ℕ)) (p k round num : ℕ)
      → 1 < n
      → Stands t n x p
      → games x r (rounds_from t n k round num) ≤ (if leb round r then 1 else 0)
  unfolding rounds_from
  games-rounds_from t p zero round num w s = omega arith
  games-rounds_from t p (suc k) round num w s =
      let ms = round_matches t n round (n / 2) 0 num in
      let rest = rounds_from (rotate t n) n k (suc round) (num + length ms) in
      ground (
        arith,
        count_where-append (plays_in x r) ms rest,
        games-round_matches t p s round (n / 2) 0 num (omega arith),
        games-rounds_from (rotate t n) (next_place (n - 1) p) k (suc round) (num + length ms) w
            (Stands-rotate t n x p w s),
      )

no_team : (x i : ℕ) → (team [] i ≢ some x) × (team (none ∷ []) i ≢ some x)
unfolding team
no_team x zero = (λ e. cc, λ e. cc)
no_team x (suc i) = (λ e. cc, λ e. cc)

append_nothing : (ts : List (Option ℕ)) → ts ++ [] ≡ ts
append_nothing [] = refl
append_nothing (t ∷ ts) = ap (λ us. t ∷ us) (append_nothing ts)

-- The number of teams is even.
teams_even :
    (entries : List ℕ)
    → (length (with_dummy entries) % 2 ≡ 0) × (length entries ≤ length (with_dummy entries))
unfolding with_dummy
teams_even entries = elim (Bool-cases (length entries % 2 == 0)) [
  | inl e ↦ rw e (
    ground (arith, e, length-map {B = Option ℕ} some entries),
    omega (arith, length-map {B = Option ℕ} some entries),
  )
  | inr e ↦ rw e (
    ground (
      arith,
      e,
      length-append (map some entries) (none ∷ []),
      length-map {B = Option ℕ} some entries,
    ),
    omega (
      arith,
      length-append (map some entries) (none ∷ []),
      length-map {B = Option ℕ} some entries,
    ),
  )
]

-- What `with_dummy` appends holds no entry.
appended :
    (entries : List ℕ)
    → (d : List (Option ℕ)) × (map some entries ++ d ≡ with_dummy entries)
      × ((x i : ℕ) → team d i ≢ some x)
unfolding with_dummy
appended entries = elim (Bool-cases (length entries % 2 == 0)) [
  | inl e ↦ rw e ([], append_nothing (map some entries), λ x i. (no_team x i).0)
  | inr e ↦ rw e (none ∷ [], refl, λ x i. (no_team x i).1)
]

first_place :
    (entries : List ℕ) (x : ℕ)
    → count_where (λ e. e == x) entries ≡ 1
    → (p : ℕ) × Stands (with_dummy entries) (length (with_dummy entries)) x p
first_place entries x c =
    let (d, same, empty) = appended entries in
    let (p, inside, here, only) = start-Stands d x (empty x) entries c in
    (
      p,
      record {
        inside = omega (arith, inside, (teams_even entries).1);
        here = ap (λ t. team t p) (sym same) ∙ here;
        only = λ i h e. only i (ap (λ t. team t i) same ∙ e);
      },
    )

-- The schedule of a round robin: two entries that each stand once in the list meet in exactly one
-- match, and in every round such an entry has one match at most.
pub generate_round_robin_once :
    (entries : List ℕ) (x y r : ℕ)
    → count_where (λ e. e == x) entries ≡ 1
    → count_where (λ e. e == y) entries ≡ 1
    → x ≢ y
    → (meetings x y (generate_round_robin entries) ≡ 1)
      × (games x r (generate_round_robin entries) ≤ 1)
unfolding generate_round_robin
generate_round_robin_once entries x y r c e d =
    let n = length (with_dummy entries) in
    let (p, s) = first_place entries x c in
    let (q, t) = first_place entries y e in
    let apart : p ≢ q = λ f. d (same_entry (ap (team (with_dummy entries)) f) s.here t.here) in
    let many : 1 < n = omega (arith, apart, s.inside, t.inside) in
    let h : ℕ = (n - 2) / 2 in
    let size : n ≡ 2 * h + 2 = omega (arith, many, (teams_even entries).0) in
    let enough : ltb (length entries) 2 ≡ false = two entries x y c e d in
    rw enough (
      meetings-rounds_from n x y h size (with_dummy entries) p q (n - 1) 1 1 s t apart
          ∙ ap (λ (k : ℕ). hits (2 * h + 1) k p q) (omega (arith, size))
          ∙ hits_once h p q (omega (arith, size, s.inside)) (omega (arith, size, t.inside)) apart,
      ground (arith, games-rounds_from n x r (with_dummy entries) p (n - 1) 1 1 many s),
    )
  where
    same_entry : {a b : Option ℕ} → a ≡ b → a ≡ some x → b ≡ some y → x ≡ y
    same_entry f g k = grind (arith, f, g, k)

    two :
        (es : List ℕ) (v w : ℕ)
        → count_where (λ e. e == v) es ≡ 1
        → count_where (λ e. e == w) es ≡ 1
        → v ≢ w
        → ltb (length es) 2 ≡ false
    two [] v w f g k = absurd (omega (arith, f))
    two (a ∷ []) v w f g k = absurd (ground (arith, f, g, k))
    two (a ∷ b ∷ es) v w f g k = ground arith
