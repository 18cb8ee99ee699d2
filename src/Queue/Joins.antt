-- ===== src/Queue/Joins.antt =====
-- `Join` keeps a waiting room sound.
use ivyticketing.Base.{
  ℕ, ◌+◌, ◌≡◌, refl, true, Option, none, some, List, [], ◌∷◌, ◌++◌, ◌==◌, arith, count_where,
  if◌then◌else◌, Option-cases, inl, inr,
}
use ivyticketing.Base.Sort.{All-weaken}
use ivyticketing.Store.Tx.{Result, ok, err}
use ivyticketing.Queue.Rows.{Pool, QueueToken, QueueAdmission, Room}
use ivyticketing.Queue.Cache.{add_waiting}
use ivyticketing.Queue.Tokens.{token_by_id, token_of, create_token}
use ivyticketing.Queue.Service.{deliver, issue_token}
use ivyticketing.Queue.Sound.{Sound, backs}

-- A token that is inserted behind the others stands behind no admission.
backs-append :
    (ts : List QueueToken) (t : QueueToken) (a : QueueAdmission)
    → backs ts a ≡ true
    → backs (ts ++ t ∷ []) a ≡ true
unfolding backs
backs-append [] t a h = ground (arith, h)
backs-append (u ∷ ts) t a h = ground (arith, backs-append ts t a)

count-append :
    (i : ℕ) (ts : List QueueToken) (t : QueueToken)
    → count_where (λ u. u.id == i) (ts ++ t ∷ [])
      ≡ count_where (λ u. u.id == i) ts + (if t.id == i then 1 else 0)
count-append i [] t = omega arith
count-append i (u ∷ ts) t = omega (arith, count-append i ts t)

count-missing :
    (id : ℕ) (ts : List QueueToken)
    → token_by_id id ts ≡ none
    → count_where (λ u. u.id == id) ts ≡ 0
unfolding token_by_id
count-missing id [] e = refl
count-missing id (u ∷ ts) e = ground (arith, count-missing id ts)

create_token-Sound : (t : QueueToken) (r : Room) → Sound r → Sound (create_token t r).1
unfolding create_token
create_token-Sound t r s = elim (Option-cases (token_by_id t.id r.tokens)) [
  | inr (u, e) ↦ rw (e, create_token) s
  | inl e ↦ elim (Option-cases (token_of t.event_id t.participant_id r.tokens)) [
    | inr (u, f) ↦ rw (e, create_token) (rw f s)
    | inl f ↦
        rw (e, create_token)
          (rw f (record {
            unique = λ i.
                ground
                  (arith, count-append i r.tokens t, count-missing t.id r.tokens e, s.unique i);
            open_once = s.open_once;
            backed = All-weaken r.admissions (λ a. backs-append r.tokens t a) s.backed;
          }))
  ]
]

deliver-Sound :
    (event participant : ℕ) (x : Result (Option QueueToken) × Room)
    → Sound x.1
    → Sound (deliver event participant x).1
unfolding deliver add_waiting
deliver-Sound event participant (err e, r) s = s
deliver-Sound event participant (ok (some t), r) s = s
deliver-Sound event participant (ok none, r) s =
    elim (Option-cases (token_of event participant r.tokens)) [
      | inl e ↦ rw (e, deliver) s
      | inr (t, e) ↦ rw (e, deliver) s
    ]

pub issue_token-Sound :
    (draw : Room → ℕ) (org event participant : ℕ) (p : Result (Pool × ℕ)) (r : Room)
    → Sound r
    → Sound (issue_token draw org event participant p r).1
unfolding issue_token
issue_token-Sound draw org event participant (err e) r s = s
issue_token-Sound draw org event participant (ok (pool, score)) r s =
    deliver-Sound event participant _ (create_token-Sound _ r s)
