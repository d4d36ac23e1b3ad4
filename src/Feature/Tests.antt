-- ===== src/Feature/Tests.antt =====
-- The features (src/feature, include/aegisflow/feature) at concrete inputs.
use aegis_flow.Prelude.{
  ◌⊎◌, false, true, ◌+◌, ◌≤◌, ◌<◌, ◌∷◌, ◌/◌, ◌≡◌, refl, false, [], codes, arith, replicate,
}
use aegis_flow.Feature.SlidingCounter.{SlidingCounter, empty_bucket, add, sum}
use aegis_flow.Feature.SlidingCounter.Window.{IsValid, counted_in, add-IsValid, sum-counts}
use aegis_flow.Feature.SlidingCounter.Buckets.{InWindow, in_window, window_counts}
use aegis_flow.Feature.SlidingDistinct.{SlidingDistinct}
use aegis_flow.Feature.SlidingDistinct
use aegis_flow.Feature.SlidingDistinct.Members.{IsBounded, add-IsBounded}
use aegis_flow.Feature.Store.{
  FeatureStateReclamationConfig, LoginFeatureStore, new_user_state, is_valid_reclamation_config,
  reclaim_cold_states,
}
use aegis_flow.Feature.Store.Reclaim.{Reclaims, reclaim_cold_states-Reclaims}

abbrev counter : SlidingCounter
counter = record { buckets = replicate 3 empty_bucket; bucket_ms = 10; total = 0 }

counter-IsValid : IsValid 3 counter
counter-IsValid = record {
  size = refl;
  total = refl;
  small = omega arith;
  quiet = (refl, (refl, (refl, tt)));
}

add-IsValid_example :
    let (c', taken) = add 3 counter 45 52 1 in
    IsValid 3 c'
    × InWindow 3 (52 / 10) c'.buckets
    × (((taken ≡ true)
          × (45 / 10 ≤ 52 / 10)
          × (52 / 10 < 45 / 10 + 3)
          × (c'.buckets ≡ counted_in 3 (in_window 3 (52 / 10) counter.buckets) (45 / 10) 1))
        ⊎ ((taken ≡ false)
            × ((52 / 10 < 45 / 10) ⊎ (45 / 10 + 3 ≤ 52 / 10))
            × (c'.buckets ≡ in_window 3 (52 / 10) counter.buckets)))
add-IsValid_example =
    add-IsValid 3 counter 45 52 1 (omega arith) (omega arith) (omega arith) (omega arith)
      counter-IsValid

-- An event at 45 counts until its bucket is three old.
sum_of_one : (sum 3 (add 3 counter 45 52 1).0 69).1 ≡ 1
unfolding sum add
sum_of_one = refl

sum_of_none : (sum 3 (add 3 counter 45 52 1).0 70).1 ≡ 0
unfolding sum add
sum_of_none = refl

-- Three buckets, one of them too old at 52.
abbrev counted : SlidingCounter
counted = record {
  buckets =
      record { bucket_id = 3; count = 2; occupied = true }
      ∷ record { bucket_id = 4; count = 1; occupied = true }
      ∷ record { bucket_id = 2; count = 4; occupied = true }
      ∷ [];
  bucket_ms = 10;
  total = 7;
}

counted-IsValid : IsValid 3 counted
counted-IsValid = record {
  size = refl;
  total = refl;
  small = omega arith;
  quiet = (tt, (tt, (tt, tt)));
}

sum-counts_example :
    let (c', total) = sum 3 counted 52 in
    IsValid 3 c'
    × (c'.buckets ≡ in_window 3 (52 / 10) counted.buckets)
    × (total ≡ window_counts 3 (52 / 10) counted.buckets)
sum-counts_example =
    sum-counts 3 counted 52 (omega arith) (omega arith) (omega arith) counted-IsValid

abbrev members : SlidingDistinct
members = record {
  window_bucket_num = 3;
  bucket_ms = 10;
  max_members = 1;
  last_now_bucket = 0;
  clock_initialized = false;
  last_seen_bucket = [];
  expired_queue = [];
}

add-IsBounded_example : IsBounded (SlidingDistinct.add members (codes "u") 45 52).0
add-IsBounded_example = add-IsBounded members (codes "u") 45 52 (omega arith)

abbrev defaults : FeatureStateReclamationConfig
defaults = record { user_ttl_ms = 600000; ip_ttl_ms = 1200000; device_ttl_ms = 1200000 }

-- Two users, one of them not seen for long.
abbrev store : LoginFeatureStore
store = record {
  config = defaults;
  user_shards =
      ((codes "old", record (new_user_state) { last_seen_ms = 5000 })
        ∷ (codes "new", record (new_user_state) { last_seen_ms = 650000 })
        ∷ [])
      ∷ [];
  ip_shards = [];
  device_shards = [];
}

reclaim_cold_states-Reclaims_example : Reclaims store 700000 (reclaim_cold_states store 700000)
unfolding is_valid_reclamation_config
reclaim_cold_states-Reclaims_example = reclaim_cold_states-Reclaims store 700000 refl
