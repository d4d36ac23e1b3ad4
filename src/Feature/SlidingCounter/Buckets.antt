-- ===== src/Feature/SlidingCounter/Buckets.antt =====
-- The buckets of sliding_counter.hpp (include/aegisflow/feature): which are in the window, and what
-- they count.
use aegis_flow.Prelude.{
  ◌⊎◌, sym, subst, Bool, false, not, if◌then◌else◌, ℕ, zero, suc, ◌+◌, ◌-◌, ◌^◌, ◌≤◌, ◌<◌, ◌≡◌,
  refl, ap, ◌∙◌, inl, inr, true, ◌&&◌, ◌||◌, List, [], ◌∷◌, arith, ltb, leb, Bool-cases, get_or,
  set, length, sub_size,
}
use aegis_flow.Feature.SlidingCounter.{Bucket, empty_bucket, minimum, stays, expire_buckets}

abbrev pub counts : List Bucket → ℕ
counts [] = 0
counts (b ∷ bs) = b.count + counts bs

pub counts-set :
    (bs : List Bucket) (i : ℕ) (b : Bucket)
    → i < length bs
    → counts (set bs i b) + (get_or bs i empty_bucket).count ≡ counts bs + b.count
counts-set [] i b h = elim h [ ]
counts-set (x ∷ bs) zero b h = omega arith
counts-set (x ∷ bs) (suc i) b h = omega (arith, counts-set bs i b (omega arith))

module _ (n : ℕ) where
  pub expire_buckets-counts :
      (now_bucket : ℕ) (bs : List Bucket) (total extra : ℕ)
      → total ≡ extra + counts bs
      → total < 2 ^ 64
      → let (bs', total') = expire_buckets n now_bucket bs total in
        (total' ≡ extra + counts bs') × (length bs' ≡ length bs) × (total' ≤ total)
  unfolding expire_buckets
  expire_buckets-counts now_bucket [] total extra e h = (e, refl, omega arith)
  expire_buckets-counts now_bucket (b ∷ bs) total extra e h =
      elim (Bool-cases (stays n now_bucket b)) [
        | inl kept ↦
            let k = expire_buckets-counts now_bucket bs total (extra + b.count) (omega arith) h in
            rw kept (omega (arith, k.0), ap suc k.1, k.2)
        | inr over ↦
            let less : sub_size total b.count ≡ total - b.count = omega arith in
            let k =
              expire_buckets-counts now_bucket bs (sub_size total b.count) extra (omega arith)
                (omega arith) in
            rw over (omega (arith, k.0), ap suc k.1, omega (arith, k.2))
      ]

  -- The bucket is not in use, or is one of the last `n` at the time.
  abbrev pub Inside : ℕ → Bucket → Type 0
  Inside now_bucket b =
      (b.occupied ≡ false) ⊎ ((b.bucket_id ≤ now_bucket) × (now_bucket < b.bucket_id + n))

  abbrev pub InWindow : ℕ → List Bucket → Type 0
  InWindow now_bucket [] = Unit
  InWindow now_bucket (b ∷ bs) = Inside now_bucket b × InWindow now_bucket bs

  abbrev pub is_recent : ℕ → Bucket → Bool
  is_recent now_bucket b = leb b.bucket_id now_bucket && ltb now_bucket (b.bucket_id + n)

  -- The buckets with those in use that are too old, or of the future, emptied.
  abbrev pub in_window : ℕ → List Bucket → List Bucket
  in_window now_bucket [] = []
  in_window now_bucket (b ∷ bs) =
      (if not b.occupied || is_recent now_bucket b then b else empty_bucket)
      ∷ in_window now_bucket bs

  -- What the buckets in use of the last `n` count.
  abbrev pub window_counts : ℕ → List Bucket → ℕ
  window_counts now_bucket [] = 0
  window_counts now_bucket (b ∷ bs) =
      (if b.occupied && is_recent now_bucket b then b.count else 0) + window_counts now_bucket bs

  module _ (now_bucket : ℕ) (positive : 0 < n) (small : n < 2 ^ 64)
      (now_small : now_bucket < 2 ^ 64) where
    stays-is_recent : (b : Bucket) → stays n now_bucket b ≡ not b.occupied || is_recent now_bucket b
    unfolding minimum
    stays-is_recent b = ground arith

    is_recent-Inside :
        (b : Bucket) → not b.occupied || is_recent now_bucket b ≡ true → Inside now_bucket b
    is_recent-Inside b h = elim (Bool-cases b.occupied) [
      | inl e ↦ inr (ground arith, ground arith)
      | inr e ↦ inl e
    ]

    pub in_window-InWindow : (bs : List Bucket) → InWindow now_bucket (in_window now_bucket bs)
    in_window-InWindow [] = tt
    in_window-InWindow (b ∷ bs) = elim (Bool-cases (not b.occupied || is_recent now_bucket b)) [
      | inl e ↦ rw e (is_recent-Inside b e, in_window-InWindow bs)
      | inr e ↦ rw e (inl refl, in_window-InWindow bs)
    ]

    pub expire_buckets-in_window :
        (bs : List Bucket) (total : ℕ)
        → (expire_buckets n now_bucket bs total).0 ≡ in_window now_bucket bs
    unfolding expire_buckets
    expire_buckets-in_window [] total = refl
    expire_buckets-in_window (b ∷ bs) total =
        let same = stays-is_recent b in
        elim (Bool-cases (stays n now_bucket b)) [
          | inl e ↦ rw (e, sym same ∙ e) (ap (λ r. b ∷ r) (expire_buckets-in_window bs total))
          | inr e ↦
              rw (e, sym same ∙ e)
                (ap (λ r. empty_bucket ∷ r) (expire_buckets-in_window bs (sub_size total b.count)))
        ]

  -- A bucket that is not in use counts nothing.
  abbrev pub IsQuiet : Bool → ℕ → Type 0
  IsQuiet true count = Unit
  IsQuiet false count = count ≡ 0

  abbrev pub AllQuiet : List Bucket → Type 0
  AllQuiet [] = Unit
  AllQuiet (b ∷ bs) = IsQuiet b.occupied b.count × AllQuiet bs

  quiet_count : (b : Bucket) → IsQuiet b.occupied b.count → b.occupied ≡ false → b.count ≡ 0
  quiet_count b q e = subst (λ o. IsQuiet o b.count) e q

  pub in_window-AllQuiet :
      (now_bucket : ℕ) (bs : List Bucket) → AllQuiet bs → AllQuiet (in_window now_bucket bs)
  in_window-AllQuiet now_bucket [] q = tt
  in_window-AllQuiet now_bucket (b ∷ bs) q =
      elim (Bool-cases (not b.occupied || is_recent now_bucket b)) [
        | inl e ↦ rw e (q.0, in_window-AllQuiet now_bucket bs q.1)
        | inr e ↦ rw e (refl, in_window-AllQuiet now_bucket bs q.1)
      ]

  pub in_window-counts :
      (now_bucket : ℕ) (bs : List Bucket)
      → AllQuiet bs
      → counts (in_window now_bucket bs) ≡ window_counts now_bucket bs
  in_window-counts now_bucket [] q = refl
  in_window-counts now_bucket (b ∷ bs) q =
      let rest = in_window-counts now_bucket bs q.1 in
      elim (Bool-cases b.occupied) [
        | inr e ↦ let none_there = quiet_count b q.0 e in rw e (omega (arith, none_there, rest))
        | inl e ↦ elim (Bool-cases (is_recent now_bucket b)) [
          | inl f ↦ rw (e, f) (omega (arith, rest))
          | inr f ↦ rw (e, f) (omega (arith, rest))
        ]
      ]

  pub AllQuiet-set :
      (bs : List Bucket) (i : ℕ) (b : Bucket)
      → b.occupied ≡ true
      → AllQuiet bs
      → AllQuiet (set bs i b)
  AllQuiet-set [] i b h q = tt
  AllQuiet-set (x ∷ bs) zero b h q = (subst (λ o. IsQuiet o b.count) (sym h) tt, q.1)
  AllQuiet-set (x ∷ bs) (suc i) b h q = (q.0, AllQuiet-set bs i b h q.1)
