-- ===== src/Queue/Keeps.antt =====
-- Each operation of the waiting room that writes tokens or admissions keeps it sound.
use ivyticketing.Base.{
  ℕ, ◌+◌, ◌≤◌, ◌≡◌, refl, true, false, not, ◌&&◌, some, List, [], ◌∷◌, ◌==◌, arith, All, find,
  filter, count_where, update_where, Option-cases, inl, inr, length,
}
use ivyticketing.Base.Sort.{All-weaken, All-filter, All-sort_by, All-take}
use ivyticketing.Queue.Rows.{QueueToken, QueueAdmission, Room, is_active}
use ivyticketing.Queue.Cache.{move_to_waiting, remove_allowed, invalidate_cached_status}
use ivyticketing.Queue.Tokens.{
  is_open_for, is_active_id, is_allowed_id, as_consumed, as_expired, as_completed, as_requeued,
  active_admission, consume_admission, expire_admission, mark_completed, requeue, is_due,
  list_expired,
}
use ivyticketing.Queue.Service.{consume_on_checkout, expire_one_admission, expire_each, expire_due}
use ivyticketing.Queue.Sound.{
  Sound, SoundRows, Backed-away, Backed-closed, count-away, count-closed, count-closed_le,
}

-- What the query for an admission finds is active, and a sound room has an allowed token for it.
pub active_admission-active :
    (event participant : ℕ) (l : List QueueAdmission) {a : QueueAdmission}
    → find (λ b. (b.event_id == event) && (b.participant_id == participant) && is_active b.status) l
      ≡ some a
    → (is_active a.status ≡ true) × (a.event_id ≡ event) × (a.participant_id ≡ participant)
active_admission-active event participant [] e = cc
active_admission-active event participant (b ∷ l) {a} e = ground (
  arith,
  λ (q : find
          (λ c. (c.event_id == event) && (c.participant_id == participant) && is_active c.status) l
        ≡ some a).
      active_admission-active event participant l q,
)

-- Taking the last active admission of a token away together with the token.
away-SoundRows :
    (g : QueueToken → QueueToken) (h : QueueAdmission → QueueAdmission) (token id : ℕ)
    (ts : List QueueToken) (l : List QueueAdmission)
    → ((t : QueueToken) → (g t).id ≡ t.id)
    → ((a : QueueAdmission) → is_active (h a).status ≡ false)
    → count_where (is_open_for token) (update_where (is_active_id id) h l) ≡ 0
    → SoundRows ts l
    → SoundRows (update_where (is_allowed_id token) g ts) (update_where (is_active_id id) h l)
away-SoundRows g h token id ts l keeps closes closed s = record {
  unique = λ i. omega (arith, count-away g keeps token i ts, s.unique i);
  open_once = λ i. omega (arith, count-closed_le h closes id i l, s.open_once i);
  backed =
      Backed-away g keeps token ts (update_where (is_active_id id) h l) closed
        (Backed-closed h closes id ts l s.backed);
}

pub consume_on_checkout-Sound :
    (participant event now : ℕ) (r : Room)
    → Sound r
    → Sound (consume_on_checkout participant event now r).1
unfolding consume_on_checkout active_admission mark_completed consume_admission remove_allowed
    invalidate_cached_status is_active
consume_on_checkout-Sound participant event now r s =
    elim (Option-cases (active_admission event participant r)) [
      | inl e ↦ rw (e, consume_on_checkout) s
      | inr (a, e) ↦
          rw (e, consume_on_checkout)
            (away-SoundRows (as_completed now) as_consumed a.token_id a.id r.tokens r.admissions
              (λ t. refl) (λ b. refl)
              (omega (
                arith,
                s.open_once a.token_id,
                count-closed as_consumed (λ b. refl)
                    (λ b.
                      (b.event_id == event)
                      && (b.participant_id == participant)
                      && is_active b.status)
                    r.admissions e (active_admission-active event participant r.admissions e).0,
              ))
              s)
    ]

-- The other active admissions of a token, which a sound room has none of.
abbrev Last : List QueueAdmission → QueueAdmission → Type 0
Last l a = count_where (λ b. is_open_for a.token_id b && not (b.id == a.id)) l ≡ 0

count-same :
    (token id : ℕ) (l : List QueueAdmission)
    → count_where (λ b. is_open_for token b && not (b.id == id)) l
        + count_where (λ b. is_open_for token b && (b.id == id)) l
      ≡ count_where (is_open_for token) l
count-same token id [] = omega arith
count-same token id (b ∷ l) = ground (arith, count-same token id l)

All-counted :
    (l : List QueueAdmission)
    → All
        (λ a.
          is_active a.status ≡ true
          → 1 ≤ count_where (λ b. is_open_for a.token_id b && (b.id == a.id)) l)
        l
unfolding is_open_for
All-counted [] = tt
All-counted (a ∷ l) = (
  λ (v : is_active a.status ≡ true). ground (arith, v),
  All-weaken l (λ b h v. omega (arith, h v)) (All-counted l),
)

All-Last :
    (l : List QueueAdmission)
    → ((i : ℕ) → count_where (is_open_for i) l ≤ 1)
    → All (λ a. is_active a.status ≡ true → Last l a) l
All-Last l once =
    All-weaken l (λ a h v. omega (arith, h v, count-same a.token_id a.id l, once a.token_id))
      (All-counted l)

-- Closing admissions leaves no more of the others active.
Last-closed :
    (h : QueueAdmission → QueueAdmission) (id : ℕ) (l : List QueueAdmission) (a : QueueAdmission)
    → ((b : QueueAdmission) → is_active (h b).status ≡ false)
    → Last l a
    → Last (update_where (is_active_id id) h l) a
unfolding is_open_for
Last-closed h id [] a closes z = z
Last-closed h id (b ∷ l) a closes z =
    ground (arith, closes b, Last-closed h id l a closes (ground (arith, z)))

count-Last :
    (h : QueueAdmission → QueueAdmission) (l : List QueueAdmission) (a : QueueAdmission)
    → ((b : QueueAdmission) → is_active (h b).status ≡ false)
    → Last l a
    → count_where (is_open_for a.token_id) (update_where (is_active_id a.id) h l) ≡ 0
unfolding is_open_for is_active_id
count-Last h [] a closes z = refl
count-Last h (b ∷ l) a closes z =
    ground (arith, closes b, count-Last h l a closes (ground (arith, z)))

expire_one_admission-Sound :
    (a : QueueAdmission) (now : ℕ) (r : Room)
    → Last r.admissions a
    → Sound r
    → Sound (expire_one_admission a now r)
unfolding expire_one_admission move_to_waiting requeue expire_admission is_active
expire_one_admission-Sound a now r z s =
    away-SoundRows (as_requeued now) as_expired a.token_id a.id r.tokens r.admissions (λ t. refl)
      (λ b. refl) (count-Last as_expired r.admissions a (λ b. refl) z) s

expire_each-Sound :
    (clock : ℕ → ℕ) (due : List QueueAdmission) (r : Room)
    → All (Last r.admissions) due
    → Sound r
    → Sound (expire_each clock due r).1
unfolding expire_each is_active expire_one_admission move_to_waiting requeue expire_admission
expire_each-Sound clock [] r z s = s
expire_each-Sound clock (a ∷ due) r z s =
    expire_each-Sound clock due (expire_one_admission a (clock (length due)) r)
      (All-weaken due (λ b h. Last-closed as_expired a.id r.admissions b (λ c. refl) h) z.1)
      (expire_one_admission-Sound a (clock (length due)) r z.0 s)

pub expire_due-Sound :
    (clock : ℕ → ℕ) (limit now : ℕ) (r : Room) → Sound r → Sound (expire_due clock limit now r).1
unfolding expire_due list_expired is_due
expire_due-Sound clock limit now r s =
    expire_each-Sound clock (list_expired now limit r) r
      (All-take (Last r.admissions) limit _ (
        All-sort_by _ (Last r.admissions) (filter (is_due now) r.admissions) (
          All-weaken (filter (is_due now) r.admissions) (λ a h. h.0 (ground (arith, h.1)))
            (All-filter (λ a. is_active a.status ≡ true → Last r.admissions a) (is_due now)
              r.admissions (All-Last r.admissions s.open_once)))))
      s
