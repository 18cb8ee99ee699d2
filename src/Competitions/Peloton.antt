-- ===== src/Competitions/Peloton.antt =====
-- The bunches of a peloton (`CalculatePelotonGrouping`, modules/competitions/scoring.go).
use ivyticketing.Base.{
  ℕ, ◌+◌, ◌≤◌, ◌<◌, ◌≡◌, refl, ap, List, [], ◌∷◌, ◌++◌, map, ◌==◌, arith, leb, Bool-cases, inl, inr,
  if◌then◌else◌,
}
use ivyticketing.Competitions.Scoring.{group_from, calculate_peloton_grouping}

-- Riders that finish together: the time of the first, and the times of those behind.
pub record Bunch : Type 0 where
  pub leader : ℕ
  pub followers : List ℕ

abbrev pub riders : List Bunch → List ℕ
riders [] = []
riders (b ∷ bs) = b.leader ∷ (b.followers ++ riders bs)

-- Every rider has the time of the leader of the bunch.
abbrev pub led : List Bunch → List ℕ
led [] = []
led (b ∷ bs) = b.leader ∷ (map (λ _. b.leader) b.followers ++ led bs)

-- Each rider is at most `gap` behind the one in front.
abbrev pub Close : ℕ → ℕ → List ℕ → Type 0
Close gap front [] = Unit
Close gap front (t ∷ ts) = (t ≤ front + gap) × Close gap t ts

abbrev pub last_from : ℕ → List ℕ → ℕ
last_from front [] = front
last_from front (t ∷ ts) = last_from t ts

-- The next bunch begins more than `gap` behind `front`.
abbrev pub Apart : ℕ → ℕ → List Bunch → Type 0
Apart gap front [] = Unit
Apart gap front (b ∷ bs) = front + gap < b.leader

-- No gap within a bunch is longer than `gap`, and every gap between two bunches is.
abbrev pub Bunches : ℕ → List Bunch → Type 0
Bunches gap [] = Unit
Bunches gap (b ∷ bs) =
    Close gap b.leader b.followers × Apart gap (last_from b.leader b.followers) bs × Bunches gap bs

-- The times of the riders, cut at the long gaps, and the adjusted times of the bunches.
pub record Grouped (gap : ℕ) (times adjusted : List ℕ) : Type 0 where
  pub bunches : List Bunch
  pub cut : times ≡ riders bunches
  pub gaps : Bunches gap bunches
  pub shared : adjusted ≡ led bunches

-- The rest of a bunch that is led by `lead`, and the bunches behind it.
record Continued (gap lead front : ℕ) (times adjusted : List ℕ) : Type 0 where
  followers : List ℕ
  bunches : List Bunch
  cut : times ≡ followers ++ riders bunches
  close : Close gap front followers
  apart : Apart gap (last_from front followers) bunches
  gaps : Bunches gap bunches
  shared : adjusted ≡ map (λ _. lead) followers ++ led bunches

group_from-Continued :
    (gap lead front : ℕ) (times : List ℕ)
    → Continued gap lead front times (group_from gap lead front times)
unfolding group_from
group_from-Continued gap lead front [] = record {
  followers = [];
  bunches = [];
  cut = refl;
  close = tt;
  apart = tt;
  gaps = tt;
  shared = refl;
}
group_from-Continued gap lead front (t ∷ ts) = elim (Bool-cases (leb t (front + gap))) [
  | inl near ↦
      let c = group_from-Continued gap lead t ts in
      rw near (record {
        followers = t ∷ c.followers;
        bunches = c.bunches;
        cut = ap (λ r. t ∷ r) c.cut;
        close = (ground arith, c.close);
        apart = c.apart;
        gaps = c.gaps;
        shared = ap (λ r. lead ∷ r) c.shared;
      })
  | inr far ↦
      let c = group_from-Continued gap t t ts in
      rw far (record {
        followers = [];
        bunches = record { leader = t; followers = c.followers } ∷ c.bunches;
        cut = ap (λ r. t ∷ r) c.cut;
        close = tt;
        apart = ground arith;
        gaps = (c.close, c.apart, c.gaps);
        shared = ap (λ r. t ∷ r) c.shared;
      })
]

-- The grouping of a peloton cuts the riders into bunches, exactly where a rider is more than the gap
-- behind the one in front, and gives every rider the time of the first of the bunch. The gap is
-- the one given, or 1000 ms where that is 0.
pub calculate_peloton_grouping-Grouped :
    (max_gap : ℕ) (times : List ℕ)
    → Grouped
        (if max_gap == 0 then 1000 else max_gap)
        times
        (calculate_peloton_grouping times max_gap)
unfolding calculate_peloton_grouping
calculate_peloton_grouping-Grouped max_gap [] = record {
  bunches = [];
  cut = refl;
  gaps = tt;
  shared = refl;
}
calculate_peloton_grouping-Grouped max_gap (t ∷ ts) =
    let c = group_from-Continued (if max_gap == 0 then 1000 else max_gap) t t ts in
    record {
      bunches = record { leader = t; followers = c.followers } ∷ c.bunches;
      cut = ap (λ r. t ∷ r) c.cut;
      gaps = (c.close, c.apart, c.gaps);
      shared = ap (λ r. t ∷ r) c.shared;
    }
