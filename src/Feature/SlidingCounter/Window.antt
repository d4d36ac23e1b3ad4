-- ===== src/Feature/SlidingCounter/Window.antt =====
-- What `add` and `sum` of sliding_counter.hpp (include/aegisflow/feature) do to the buckets.
use aegis_flow.Prelude.{
  ◌==◌, if◌then◌else◌, ◌&&◌, ◌⊎◌, sym, subst, false, ℕ, zero, suc, ◌+◌, ◌-◌, ◌/◌, ◌%◌, ◌^◌, ◌≤◌,
  ◌<◌, ◌≡◌, refl, ap, ◌∙◌, inl, inr, true, ◌||◌, List, [], ◌∷◌, arith, ltb, leb, Bool-cases, get_or,
  set, length, length-set,
}
use native.Mathlib.Nat.{mod-lt, div-le_self}
use aegis_flow.Feature.SlidingCounter.{
  Bucket, empty_bucket, SlidingCounter, expire, claim, count_event, add, sum,
}
use aegis_flow.Feature.SlidingCounter.Buckets.{
  counts, counts-set, expire_buckets-counts, Inside, InWindow, in_window, window_counts,
  in_window-InWindow, expire_buckets-in_window, AllQuiet, in_window-AllQuiet, in_window-counts,
  AllQuiet-set,
}

module _ (n : ℕ) where
  -- The total counts what the buckets in use count, and no sum has wrapped around.
  pub record IsValid (c : SlidingCounter) : Type 0 where
    pub size : length c.buckets ≡ n
    pub total : c.total ≡ counts c.buckets
    pub small : c.total < 2 ^ 32
    pub quiet : AllQuiet n c.buckets

  expire-IsValid :
      (c : SlidingCounter) (now_ms : ℕ)
      → 0 < n
      → n < 2 ^ 64
      → now_ms < 2 ^ 64
      → IsValid c
      → IsValid (expire n c now_ms)
        × ((expire n c now_ms).buckets ≡ in_window n (now_ms / c.bucket_ms) c.buckets)
        × ((expire n c now_ms).total ≤ c.total)
  unfolding expire
  expire-IsValid c now_ms positive small now_small v =
      let now_bucket = now_ms / c.bucket_ms in
      let now_fits : now_bucket < 2 ^ 64 = omega (arith, div-le_self now_ms c.bucket_ms) in
      let same = expire_buckets-in_window n now_bucket positive small now_fits c.buckets c.total in
      let k =
        expire_buckets-counts n now_bucket c.buckets c.total 0 (omega (arith, v.total))
          (omega (arith, v.small)) in
      (
        record {
          size = k.1 ∙ v.size;
          total = omega (arith, k.0);
          small = omega (arith, k.2, v.small);
          quiet = subst (AllQuiet n) (sym same) (in_window-AllQuiet n now_bucket c.buckets v.quiet);
        },
        same,
        k.2,
      )

  InWindow-set :
      (now_bucket : ℕ) (bs : List Bucket) (i : ℕ) (b : Bucket)
      → Inside n now_bucket b
      → InWindow n now_bucket bs
      → InWindow n now_bucket (set bs i b)
  InWindow-set now_bucket [] i b h w = tt
  InWindow-set now_bucket (x ∷ bs) zero b h w = (h, w.1)
  InWindow-set now_bucket (x ∷ bs) (suc i) b h w = (w.0, InWindow-set now_bucket bs i b h w.1)

  -- What an accepted event does to the bucket that it claims.
  claim-counts :
      (b : Bucket) (event_bucket : ℕ)
      → let (b', leaving) = claim n b event_bucket in
        (b'.count + leaving ≡ b.count) × (b'.bucket_id ≡ event_bucket) × (b'.occupied ≡ true)
  claim-counts b event_bucket = (ground arith, ground arith, ground arith)

  count-get : (bs : List Bucket) (i : ℕ) → (get_or bs i empty_bucket).count ≤ counts bs
  count-get [] i = omega arith
  count-get (b ∷ bs) zero = omega arith
  count-get (b ∷ bs) (suc i) = omega (arith, count-get bs i)

  -- What the bucket counts already of the time of the event.
  abbrev pub held : Bucket → ℕ → ℕ
  held b event_bucket = if b.occupied && (b.bucket_id == event_bucket) then b.count else 0

  -- The buckets with the event in the bucket of its time.
  abbrev pub counted_in : List Bucket → ℕ → ℕ → List Bucket
  counted_in bs event_bucket delta = set bs (event_bucket % n) (record {
    bucket_id = event_bucket;
    count = held (get_or bs (event_bucket % n) empty_bucket) event_bucket + delta;
    occupied = true;
  })

  claim-held :
      (b : Bucket) (event_bucket : ℕ) → (claim n b event_bucket).0.count ≡ held b event_bucket
  claim-held b event_bucket = ground arith

  bucket-eq :
      (b : Bucket) (id count : ℕ)
      → b.bucket_id ≡ id
      → b.occupied ≡ true
      → b.count ≡ count
      → b ≡ record { bucket_id = id; count = count; occupied = true }
  bucket-eq b id count e used f = λ i. record { bucket_id = e i; count = f i; occupied = used i }

  count_event-IsValid :
      (c : SlidingCounter) (now_bucket event_bucket delta : ℕ)
      → 0 < n
      → event_bucket ≤ now_bucket
      → now_bucket < event_bucket + n
      → c.total + delta < 2 ^ 32
      → IsValid c
      → InWindow n now_bucket c.buckets
      → IsValid (count_event n c event_bucket delta)
        × InWindow n now_bucket (count_event n c event_bucket delta).buckets
        × ((count_event n c event_bucket delta).buckets ≡ counted_in c.buckets event_bucket delta)
  unfolding count_event
  count_event-IsValid c now_bucket event_bucket delta positive le recent room v w =
      let index = event_bucket % n in
      let old = get_or c.buckets index empty_bucket in
      let (b, leaving) = claim n old event_bucket in
      let (balance, at, used) = claim-counts old event_bucket in
      let inside : index < length c.buckets = omega (arith, mod-lt event_bucket positive, v.size) in
      let put : Bucket = record b { count = (b.count + delta) % 2 ^ 32 } in
      let change = counts-set c.buckets index put inside in
      let bound = count-get c.buckets index in
      (
        record {
          size = length-set c.buckets index put ∙ v.size;
          total = omega (arith, v.total, v.small, room, change, balance, bound);
          small = omega (arith, v.total, v.small, room, balance, bound);
          quiet = AllQuiet-set n c.buckets index put used v.quiet;
        },
        InWindow-set now_bucket c.buckets index put
            (inr (omega (arith, at, le), omega (arith, at, recent))) w,
        ap (set c.buckets index) (
            bucket-eq put event_bucket (held old event_bucket + delta) at used
              (omega (arith, claim-held old event_bucket, balance, bound, v.total, room))),
      )

  -- For a valid counter of fewer than 2 ^ 64 buckets and a total that stays below 2 ^ 32 with the
  -- event, `add` takes the event exactly if it is not in the future and lies in one of the last `n`
  -- buckets. It empties the buckets in use that are not, and counts an event that it takes in the
  -- bucket of its time, which it clears if it was another time's. The counter stays valid, and every
  -- bucket in use is then one of the last `n`.
  pub add-IsValid :
      (c : SlidingCounter) (event_ts_ms now_ms delta : ℕ)
      → 0 < n
      → n < 2 ^ 64
      → now_ms < 2 ^ 64
      → c.total + delta < 2 ^ 32
      → IsValid c
      → let (c', taken) = add n c event_ts_ms now_ms delta in
        let now_bucket = now_ms / c.bucket_ms in
        let event_bucket = event_ts_ms / c.bucket_ms in
        IsValid c'
        × InWindow n now_bucket c'.buckets
        × (((taken ≡ true)
              × (event_bucket ≤ now_bucket)
              × (now_bucket < event_bucket + n)
              × (c'.buckets ≡ counted_in (in_window n now_bucket c.buckets) event_bucket delta))
            ⊎ ((taken ≡ false)
                × ((now_bucket < event_bucket) ⊎ (event_bucket + n ≤ now_bucket))
                × (c'.buckets ≡ in_window n now_bucket c.buckets)))
  unfolding add expire
  add-IsValid c event_ts_ms now_ms delta positive small now_small room v =
      let now_bucket = now_ms / c.bucket_ms in
      let event_bucket = event_ts_ms / c.bucket_ms in
      let (valid, same, less) = expire-IsValid c now_ms positive small now_small v in
      let now_fits : now_bucket < 2 ^ 64 = omega (arith, div-le_self now_ms c.bucket_ms) in
      let inside : InWindow n now_bucket (expire n c now_ms).buckets =
        subst (InWindow n now_bucket) (sym same)
          (in_window-InWindow n now_bucket positive small now_fits c.buckets) in
      elim (Bool-cases (ltb now_bucket event_bucket || leb n (now_bucket - event_bucket))) [
        | inl out ↦ rw out (valid, inside, inr (refl, outside out, same))
        | inr here ↦
            let le : event_bucket ≤ now_bucket = ground arith in
            let recent : now_bucket < event_bucket + n = ground arith in
            let done =
              count_event-IsValid (expire n c now_ms) now_bucket event_bucket delta positive le
                recent (omega (arith, less, room)) valid inside in
            rw here (
              done.0,
              done.1,
              inl (refl, le, recent, done.2 ∙ ap (λ bs. counted_in bs event_bucket delta) same),
            )
      ]
    where
      outside :
          ltb (now_ms / c.bucket_ms) (event_ts_ms / c.bucket_ms)
              || leb n (now_ms / c.bucket_ms - event_ts_ms / c.bucket_ms)
            ≡ true
          → (now_ms / c.bucket_ms < event_ts_ms / c.bucket_ms)
            ⊎ (event_ts_ms / c.bucket_ms + n ≤ now_ms / c.bucket_ms)
      outside h = ground arith

  -- For a valid counter of fewer than 2 ^ 64 buckets, `sum` reports what its buckets in use of the
  -- last `n` count together; it empties the other buckets in use, leaves these as they are, and the
  -- counter stays valid.
  pub sum-counts :
      (c : SlidingCounter) (now_ms : ℕ)
      → 0 < n
      → n < 2 ^ 64
      → now_ms < 2 ^ 64
      → IsValid c
      → let (c', total) = sum n c now_ms in
        let now_bucket = now_ms / c.bucket_ms in
        IsValid c'
        × (c'.buckets ≡ in_window n now_bucket c.buckets)
        × (total ≡ window_counts n now_bucket c.buckets)
  unfolding sum
  sum-counts c now_ms positive small now_small v =
      let (valid, same, less) = expire-IsValid c now_ms positive small now_small v in
      (
        valid,
        same,
        omega (
          arith,
          valid.total,
          valid.small,
          ap counts same,
          in_window-counts n (now_ms / c.bucket_ms) c.buckets v.quiet,
        ),
      )
