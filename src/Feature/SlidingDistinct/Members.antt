-- ===== src/Feature/SlidingDistinct/Members.antt =====
-- The members of a window of sliding_distinct.hpp (include/aegisflow/feature): never more than allowed.
use aegis_flow.Prelude.{ℕ, ◌/◌, ◌≤◌, ◌≡◌, refl, List, [], ◌∷◌, Bytes, arith, length}
use aegis_flow.Feature.SlidingDistinct.{
  Entry, SlidingDistinct, erase_member, refresh_member, min_valid_bucket, drop_stale, expire_queue,
  expire, add,
}

erase_member-length :
    (seen : List (Bytes × ℕ)) (member : Bytes) → length (erase_member seen member) ≤ length seen
unfolding erase_member
erase_member-length [] member = omega arith
erase_member-length ((key, bucket) ∷ rest) member = ground (arith, erase_member-length rest member)

refresh_member-length :
    (seen : List (Bytes × ℕ)) (member : Bytes) (bucket : ℕ)
    → length (refresh_member seen member bucket) ≡ length seen
unfolding refresh_member
refresh_member-length [] member bucket = refl
refresh_member-length ((key, old) ∷ rest) member bucket =
    ground (arith, refresh_member-length rest member bucket)

drop_stale-length :
    (seen : List (Bytes × ℕ)) (entry : Entry) → length (drop_stale seen entry) ≤ length seen
unfolding drop_stale
drop_stale-length seen entry = ground (arith, erase_member-length seen entry.member)

expire_queue-length :
    (minimum : ℕ) (entries : List Entry) (seen : List (Bytes × ℕ))
    → length (expire_queue minimum entries seen).1 ≤ length seen
unfolding expire_queue
expire_queue-length minimum [] seen = omega arith
expire_queue-length minimum (entry ∷ entries) seen = ground (
  arith,
  expire_queue-length minimum entries (drop_stale seen entry),
  drop_stale-length seen entry,
)

abbrev pub IsBounded : SlidingDistinct → Type 0
IsBounded d = length d.last_seen_bucket ≤ d.max_members

expire-IsBounded : (d : SlidingDistinct) (now_ms : ℕ) → IsBounded d → IsBounded (expire d now_ms)
unfolding expire
expire-IsBounded d now_ms v = ground (
  arith,
  v,
  expire_queue-length (min_valid_bucket d (now_ms / d.bucket_ms)) d.expired_queue
      d.last_seen_bucket,
  expire_queue-length (min_valid_bucket d (now_ms / d.bucket_ms)) [] [],
)

pub add-IsBounded :
    (d : SlidingDistinct) (member : Bytes) (event_ts_ms now_ms : ℕ)
    → IsBounded d
    → IsBounded (add d member event_ts_ms now_ms).0
unfolding add
add-IsBounded d member event_ts_ms now_ms v = ground (
  arith,
  expire-IsBounded d now_ms v,
  refresh_member-length (expire d now_ms).last_seen_bucket member
      (event_ts_ms / (expire d now_ms).bucket_ms),
)
