-- ===== src/Queue/Cache.antt =====
-- The sorted sets of the waiting room in Redis (services/api/internal/platform/queue/queue.go), which
-- modules/queue/store.go passes on. A failure of Redis is not modelled: the service drops the errors.
-- The order of the members of a set with equal scores is that of their texts, which for identifiers
-- is the order of the identifiers.
use ivyticketing.Base.{
  ℕ, ◌+◌, ◌*◌, ◌/◌, ◌%◌, ◌^◌, zero, suc, Bool, not, ◌&&◌, ◌||◌, Option, none, some, List, ◌∷◌, ◌==◌,
  ltb, find, filter, count_where, if◌then◌else◌,
}
use ivyticketing.Queue.Rows.{Member, Room, StatusResponse, CachedStatus}

-- `x / 2 ^ k` rounded half to even.
abbrev pub half_even : ℕ → ℕ → ℕ
half_even x d =
    let q = x / d in
    let r = x % d in if ltb d (2 * r) || ((2 * r == d) && (q % 2 == 1)) then q + 1 else q

-- Go's `float64(x)`: 53 bits of a number, by halvings. An int64 takes 11 of them at most.
unfoldable pub float_from : ℕ → ℕ → ℕ → ℕ
float_from zero d x = x
float_from (suc k) d x =
    let wider = float_from k (2 * d) x in if ltb (x / d) (2 ^ 53) then half_even x d * d else wider

unfoldable pub to_float : ℕ → ℕ
unfolding float_from
to_float = float_from 12 1

unfoldable pub is_member : ℕ → ℕ → Member → Bool
is_member event member m = (m.event_id == event) && (m.participant_id == member)

-- `ZREM`.
unfoldable pub zrem : ℕ → ℕ → List Member → List Member
zrem event member = filter (λ m. not (is_member event member m))

-- `ZADD`: the member has the new score.
unfoldable pub zadd : ℕ → ℕ → ℕ → List Member → List Member
unfolding zrem
zadd event member score s =
    record { event_id = event; participant_id = member; score = score } ∷ zrem event member s

unfoldable pub add_waiting : ℕ → ℕ → ℕ → Room → Room
add_waiting event member score r = record r {
  waiting = zadd event member (to_float score) r.waiting;
}

unfoldable pub is_ahead : Member → Member → Bool
is_ahead m n =
    (m.event_id == n.event_id)
    && (ltb m.score n.score || ((m.score == n.score) && ltb m.participant_id n.participant_id))

-- `ZRANK`; the service makes 0 of a member that is not in the set.
unfoldable pub waiting_rank : ℕ → ℕ → Room → ℕ
waiting_rank event member r = elim (find (is_member event member) r.waiting) [
  | none ↦ 0
  | some m ↦ count_where (λ n. is_ahead n m) r.waiting
]

unfoldable pub waiting_count : ℕ → Room → ℕ
waiting_count event r = count_where (λ m. m.event_id == event) r.waiting

unfoldable pub allowed_count : ℕ → Room → ℕ
allowed_count event r = count_where (λ m. m.event_id == event) r.allowed

unfoldable pub move_to_allowed : ℕ → ℕ → ℕ → Room → Room
move_to_allowed event member expires_at r = record r {
  waiting = zrem event member r.waiting;
  allowed = zadd event member (to_float expires_at) r.allowed;
}

unfoldable pub move_to_waiting : ℕ → ℕ → ℕ → Room → Room
move_to_waiting event member score r = record r {
  allowed = zrem event member r.allowed;
  waiting = zadd event member (to_float score) r.waiting;
}

unfoldable pub remove_allowed : ℕ → ℕ → Room → Room
remove_allowed event member r = record r { allowed = zrem event member r.allowed }

unfoldable pub is_status_of : ℕ → ℕ → CachedStatus → Bool
is_status_of event member c = (c.event_id == event) && (c.participant_id == member)

-- `GetCachedStatus`: Redis drops a value at its time.
unfoldable pub cached_status : ℕ → ℕ → ℕ → Room → Option StatusResponse
cached_status event member now r =
    elim (find (λ c. is_status_of event member c && ltb now c.until) r.cached) [
      | none ↦ none
      | some c ↦ some c.response
    ]

unfoldable pub invalidate_cached_status : ℕ → ℕ → Room → Room
invalidate_cached_status event member r = record r {
  cached = filter (λ c. not (is_status_of event member c)) r.cached;
}

unfoldable pub set_cached_status : ℕ → ℕ → StatusResponse → ℕ → Room → Room
unfolding invalidate_cached_status
set_cached_status event member response until r =
    let kept = invalidate_cached_status event member r in
    record kept {
      cached =
          record { event_id = event; participant_id = member; until = until; response = response }
          ∷ kept.cached;
    }
