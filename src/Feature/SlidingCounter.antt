-- ===== src/Feature/SlidingCounter.antt =====
-- sliding_counter.hpp (include/aegisflow/feature): how many events fell into the last buckets.
use aegis_flow.Prelude.{
  ℕ, ◌+◌, ◌-◌, ◌/◌, ◌%◌, ◌^◌, Bool, true, false, not, ◌&&◌, ◌||◌, Option, none, some, List, [], ◌∷◌,
  ltb, leb, ◌==◌, if◌then◌else◌, get_or, set, replicate, add_size, sub_size,
}
pub mod Buckets
pub mod Window

pub record Bucket : Type 0 where
  pub bucket_id : ℕ
  pub count : ℕ
  pub occupied : Bool

abbrev pub empty_bucket : Bucket
empty_bucket = record { bucket_id = 0; count = 0; occupied = false }

pub record SlidingCounter : Type 0 where
  pub buckets : List Bucket
  pub bucket_ms : ℕ
  pub total : ℕ

-- `bucket_num` is the template's `BucketNum`.
module _ (bucket_num : ℕ) where
  -- none where the constructor throws.
  unfoldable pub new_counter : ℕ → Option SlidingCounter
  new_counter bucket_ms =
      if bucket_ms == 0
      then none
      else some
          (record { buckets = replicate bucket_num empty_bucket; bucket_ms = bucket_ms; total = 0 })

  unfoldable pub minimum : ℕ → ℕ
  minimum now_bucket =
      if ltb now_bucket (bucket_num - 1) then 0 else add_size (sub_size now_bucket bucket_num) 1

  abbrev pub stays : ℕ → Bucket → Bool
  stays now_bucket b =
      not b.occupied || (leb (minimum now_bucket) b.bucket_id && leb b.bucket_id now_bucket)

  -- The loop of `expire`, with the total.
  unfoldable pub expire_buckets : ℕ → List Bucket → ℕ → List Bucket × ℕ
  unfolding minimum
  expire_buckets now_bucket [] total = ([], total)
  expire_buckets now_bucket (b ∷ bs) total =
      let kept = stays now_bucket b in
      let total' = if kept then total else sub_size total b.count in
      let (rest, last) = expire_buckets now_bucket bs total' in
      ((if kept then b else empty_bucket) ∷ rest, last)

  unfoldable pub expire : SlidingCounter → ℕ → SlidingCounter
  unfolding expire_buckets
  expire c now_ms =
      let (buckets, total) = expire_buckets (now_ms / c.bucket_ms) c.buckets c.total in
      record c { buckets = buckets; total = total }

  -- What `add` does to the bucket of the event: the bucket, and what leaves the total.
  abbrev pub claim : Bucket → ℕ → Bucket × ℕ
  claim b event_bucket =
      if not b.occupied || not (b.bucket_id == event_bucket)
      then (record { bucket_id = event_bucket; count = 0; occupied = true }, b.count)
      else (b, 0)

  -- The event is counted in its bucket and in the total.
  unfoldable pub count_event : SlidingCounter → ℕ → ℕ → SlidingCounter
  count_event c event_bucket delta =
      let index = event_bucket % bucket_num in
      let (b, leaving) = claim (get_or c.buckets index empty_bucket) event_bucket in
      record c {
        buckets = set c.buckets index (record b { count = (b.count + delta) % 2 ^ 32 });
        total = add_size (sub_size c.total leaving) delta;
      }

  unfoldable pub add : SlidingCounter → ℕ → ℕ → ℕ → SlidingCounter × Bool
  unfolding expire count_event
  add c0 event_ts_ms now_ms delta =
      let c = expire c0 now_ms in
      let event_bucket = event_ts_ms / c.bucket_ms in
      let now_bucket = now_ms / c.bucket_ms in
      if ltb now_bucket event_bucket || leb bucket_num (now_bucket - event_bucket)
      then (c, false)
      else (count_event c event_bucket delta, true)

  unfoldable pub sum : SlidingCounter → ℕ → SlidingCounter × ℕ
  unfolding expire
  sum c0 now_ms = let c = expire c0 now_ms in (c, c.total % 2 ^ 32)
