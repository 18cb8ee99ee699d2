-- ===== src/Ballot/Draw.antt =====
-- The draw (services/api/internal/modules/ballot/draw.go) and the rows that `Service.RunDraw`
-- writes for it (service.go).
use Prim.Native.String.{◌++◌ as text_append}
use ivyticketing.Base.{
  ℕ, zero, suc, ◌+◌, ◌-◌, ◌/◌, ◌%◌, String, Bool, Option, none, some, List, [], ◌∷◌, length,
  get_elem?, ltb, str_eq, if◌then◌else◌,
}

-- `sha256.Sum256` with `hex.EncodeToString`, and `math/rand`: a source made from the digest of the
-- seed, whose state is coded as a number, and `Intn`, which gives its result and the next state.
pub record Primitives : Type 0 where
  pub sha256_hex : String → String
  pub new_source : String → ℕ
  pub intn : ℕ → ℕ → ℕ × ℕ

pub record DrawEntry : Type 0 where
  pub id : String

pub data Outcome : Type 0 where
  winner waitlisted not_selected : Outcome

pub record DrawResult : Type 0 where
  pub entry_id : String
  pub outcome : Outcome
  pub rank : ℕ
  pub result_hash : String

-- `out[i] = x`.
abbrev pub set_elem {ℓ} : {A : Type ℓ} → ℕ → A → List A → List A
set_elem i x [] = []
set_elem zero x (y ∷ ys) = x ∷ ys
set_elem (suc i) x (y ∷ ys) = y ∷ set_elem i x ys

-- `out[i], out[j] = out[j], out[i]`. (`Intn` stays in range, so an index out of range does not
-- occur; Go would stop there.)
unfoldable pub swap {ℓ} : {A : Type ℓ} → ℕ → ℕ → List A → List A
swap {A = A} i j xs = exchange (get_elem? xs i) (get_elem? xs j)
  where
    exchange : Option A → Option A → List A
    exchange (some a) (some b) = set_elem j a (set_elem i b xs)
    exchange _ _ = xs

-- The rounds `i`, `i - 1`, … , 1 of the loop.
unfoldable pub shuffle_rounds : Primitives → ℕ → ℕ → List DrawEntry → List DrawEntry
shuffle_rounds c zero source out = out
shuffle_rounds c (suc i) source out =
    let (j, next) = c.intn source (suc i + 1) in shuffle_rounds c i next (swap (suc i) j out)

unfoldable pub shuffle : Primitives → String → List DrawEntry → List DrawEntry
shuffle c seed entries = shuffle_rounds c (length entries - 1) (c.new_source seed) entries

-- `%d` at a number that is not negative; `fuel` bounds its digits.
abbrev digits : List String
digits = "0" ∷ "1" ∷ "2" ∷ "3" ∷ "4" ∷ "5" ∷ "6" ∷ "7" ∷ "8" ∷ "9" ∷ []

abbrev pub digit : ℕ → String
digit n = elim (get_elem? digits n) [ none ↦ "" | some t ↦ t ]

unfoldable pub decimal_digits : ℕ → ℕ → String
decimal_digits zero n = ""
decimal_digits (suc fuel) n =
    let rest = decimal_digits fuel (n / 10) in
    if ltb n 10 then digit n else text_append rest (digit (n % 10))

unfoldable pub decimal : ℕ → String
decimal n = decimal_digits (suc n) n

-- The digest of `seed|rank|entry`.
unfoldable pub result_hash : Primitives → String → ℕ → String → String
result_hash c seed rank entry =
    c.sha256_hex
      (text_append seed (text_append "|" (text_append (decimal rank) (text_append "|" entry))))

unfoldable pub outcome_at : ℕ → ℕ → ℕ → Outcome
outcome_at quota waitlist_size i =
    if ltb i quota
    then Outcome.winner
    else if ltb i (quota + waitlist_size)
    then Outcome.waitlisted
    else Outcome.not_selected

-- The results from the index `i` on.
unfoldable pub assign_from : Primitives → String → ℕ → ℕ → ℕ → List DrawEntry → List DrawResult
assign_from c seed quota waitlist_size i [] = []
assign_from c seed quota waitlist_size i (e ∷ es) =
    record {
      entry_id = e.id;
      outcome = outcome_at quota waitlist_size i;
      rank = i;
      result_hash = result_hash c seed i e.id;
    }
    ∷ assign_from c seed quota waitlist_size (i + 1) es

unfoldable pub assign : Primitives → String → List DrawEntry → ℕ → ℕ → List DrawResult
assign c seed shuffled quota waitlist_size = assign_from c seed quota waitlist_size 0 shuffled

-- A row of `ballot_draw_results`.
pub record BallotDrawResult : Type 0 where
  pub ballot_entry_id : String
  pub outcome : Outcome
  pub rank : ℕ
  pub result_hash : String

-- The loop of `RunDraw` over the results: `entryID := dbEntries[i].ID`.
unfoldable pub recorded : List DrawEntry → List DrawResult → List BallotDrawResult
recorded entries [] = []
recorded [] (r ∷ rs) = []
recorded (e ∷ entries) (r ∷ rs) =
    record {
      ballot_entry_id = e.id;
      outcome = r.outcome;
      rank = r.rank;
      result_hash = r.result_hash;
    }
    ∷ recorded entries rs

-- Steps 3 and 4 of `RunDraw`: the rows that it writes for the entries that `applied` lists.
unfoldable pub draw_rows : Primitives → String → List DrawEntry → ℕ → ℕ → List BallotDrawResult
draw_rows c seed applied quota waitlist_size =
    recorded applied (assign c seed (shuffle c seed applied) quota waitlist_size)

-- `VerifyResultHash` for a draw whose seed is set.
unfoldable pub verify_result_hash : Primitives → String → String → ℕ → String → Bool
verify_result_hash c seed entry_id rank claimed = str_eq (result_hash c seed rank entry_id) claimed
