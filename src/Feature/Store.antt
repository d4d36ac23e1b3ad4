-- ===== src/Feature/Store.antt =====
-- feature_store.hpp, feature_store.cpp and user_state.hpp (include/aegisflow/feature, src/feature):
-- the windows of every user, address and device, in shards.
use aegis_flow.Prelude.{
  ℕ, ◌+◌, ◌-◌, ◌*◌, ◌%◌, ◌≤◌, Bool, true, false, not, ◌&&◌, ◌||◌, Option, none, some, List, [], ◌∷◌,
  map, Bytes, add_size, ltb, leb, ◌==◌, if◌then◌else◌, length, get_or, set, replicate,
}
use aegis_flow.Domain.Login.{LoginResult, success, fail, LoginAttempt}
use aegis_flow.Risk.Types.{LoginFeatureSnapshot}
use aegis_flow.Feature.Maps.{Map, find, put, keep_if}
use aegis_flow.Feature.SlidingCounter.{SlidingCounter, empty_bucket}
use aegis_flow.Feature.SlidingCounter
use aegis_flow.Feature.SlidingDistinct.{SlidingDistinct, active_member_count}
use aegis_flow.Feature.SlidingDistinct
pub mod Reclaim

pub record FeatureStateReclamationConfig : Type 0 where
  pub user_ttl_ms : ℕ
  pub ip_ttl_ms : ℕ
  pub device_ttl_ms : ℕ

pub record FeatureStoreStats : Type 0 where
  pub user_state_count : ℕ
  pub ip_state_count : ℕ
  pub ip_distinct_member_count : ℕ
  pub device_state_count : ℕ
  pub device_distinct_member_count : ℕ

pub record LoginUserState : Type 0 where
  pub login_fail_5m : SlidingCounter
  pub last_seen_ms : ℕ

pub record IpFeatureState : Type 0 where
  pub distinct : SlidingDistinct
  pub failures_10m : SlidingCounter
  pub last_seen_ms : ℕ

pub record DeviceFeatureState : Type 0 where
  pub distinct : SlidingDistinct
  pub last_seen_ms : ℕ

pub record LoginFeatureStore : Type 0 where
  pub config : FeatureStateReclamationConfig
  pub user_shards : List (Map LoginUserState)
  pub ip_shards : List (Map IpFeatureState)
  pub device_shards : List (Map DeviceFeatureState)

abbrev pub user_shard_num : ℕ
user_shard_num = 64

abbrev pub distinct_shard_num : ℕ
distinct_shard_num = 64

abbrev pub user_window_ms : ℕ
user_window_ms = 5 * 60 * 1000

abbrev pub distinct_window_ms : ℕ
distinct_window_ms = 10 * 60 * 1000

abbrev pub distinct_bucket_ms : ℕ
distinct_bucket_ms = 10 * 1000

abbrev pub distinct_max_members : ℕ
distinct_max_members = 5000

abbrev pub ip_failure_bucket_ms : ℕ
ip_failure_bucket_ms = 10 * 1000

abbrev pub counter_buckets : ℕ
counter_buckets = 60

-- The states that `try_emplace` makes.
abbrev pub new_window : ℕ → SlidingCounter
new_window bucket_ms = record {
  buckets = replicate counter_buckets empty_bucket;
  bucket_ms = bucket_ms;
  total = 0;
}

abbrev pub new_members : SlidingDistinct
new_members = record {
  window_bucket_num = 60;
  bucket_ms = distinct_bucket_ms;
  max_members = distinct_max_members;
  last_now_bucket = 0;
  clock_initialized = false;
  last_seen_bucket = [];
  expired_queue = [];
}

abbrev pub new_user_state : LoginUserState
new_user_state = record { login_fail_5m = new_window 5000; last_seen_ms = 0 }

abbrev pub new_ip_state : IpFeatureState
new_ip_state = record {
  distinct = new_members;
  failures_10m = new_window ip_failure_bucket_ms;
  last_seen_ms = 0;
}

abbrev pub new_device_state : DeviceFeatureState
new_device_state = record { distinct = new_members; last_seen_ms = 0 }

unfoldable pub is_valid_reclamation_config : FeatureStateReclamationConfig → Bool
is_valid_reclamation_config config =
    leb user_window_ms config.user_ttl_ms
    && leb distinct_window_ms config.ip_ttl_ms
    && leb distinct_window_ms config.device_ttl_ms

-- `true` where the function returns, `false` where it throws.
unfoldable pub validate_reclamation_config : FeatureStateReclamationConfig → Bool
validate_reclamation_config config =
    if ltb config.user_ttl_ms user_window_ms
    then false
    else if ltb config.ip_ttl_ms distinct_window_ms || ltb config.device_ttl_ms distinct_window_ms
    then false
    else true

-- none where the constructor throws.
unfoldable pub new_store : FeatureStateReclamationConfig → Option LoginFeatureStore
unfolding validate_reclamation_config
new_store config =
    if validate_reclamation_config config
    then some (record {
      config = config;
      user_shards = replicate user_shard_num [];
      ip_shards = replicate distinct_shard_num [];
      device_shards = replicate distinct_shard_num [];
    })
    else none

unfoldable pub is_within_window : ℕ → ℕ → ℕ → Bool
is_within_window event_ts_ms now_ms window_ms =
    leb event_ts_ms now_ms && ltb (now_ms - event_ts_ms) window_ms

unfoldable pub is_expired : ℕ → ℕ → ℕ → Bool
is_expired last_seen_ms now_ms ttl_ms =
    leb last_seen_ms now_ms && leb ttl_ms (now_ms - last_seen_ms)

abbrev is_fail : LoginResult → Bool
is_fail fail = true
is_fail success = false

-- The state that an update works on: the one found, or a new one.
abbrev found_or_new {ℓ} : {A : Type ℓ} → Option A → Bool → A → Option A
found_or_new (some a) create fresh = some a
found_or_new none true fresh = some fresh
found_or_new none false fresh = none

unfoldable pub fail_user : LoginUserState → LoginAttempt → ℕ → LoginUserState
unfolding SlidingCounter.add
fail_user state attempt now_ms = record {
  login_fail_5m =
      (SlidingCounter.add counter_buckets state.login_fail_5m attempt.timestamp_ms now_ms 1).0;
  last_seen_ms = now_ms;
}

unfoldable pub fail_ip : IpFeatureState → LoginAttempt → ℕ → IpFeatureState
unfolding SlidingCounter.add SlidingDistinct.add
fail_ip state attempt now_ms = record {
  distinct = (SlidingDistinct.add state.distinct attempt.user_id attempt.timestamp_ms now_ms).0;
  failures_10m =
      (SlidingCounter.add counter_buckets state.failures_10m attempt.timestamp_ms now_ms 1).0;
  last_seen_ms = now_ms;
}

unfoldable pub touch_device : DeviceFeatureState → LoginAttempt → ℕ → DeviceFeatureState
unfolding SlidingDistinct.add
touch_device state attempt now_ms = record {
  distinct = (SlidingDistinct.add state.distinct attempt.user_id attempt.timestamp_ms now_ms).0;
  last_seen_ms = now_ms;
}

-- `hash` is `std::hash<std::string>`.
module _ (hash : Bytes → ℕ) where
  abbrev shard_index : Bytes → ℕ → ℕ
  shard_index key shard_num = hash key % shard_num

  unfoldable pub update_user :
      LoginFeatureStore
      → LoginAttempt
      → ℕ
      → LoginFeatureSnapshot
      → LoginFeatureStore × LoginFeatureSnapshot
  unfolding is_within_window fail_user SlidingCounter.sum
  update_user store attempt now_ms out =
      let can_update_failure =
        is_fail attempt.result && is_within_window attempt.timestamp_ms now_ms user_window_ms in
      let index = shard_index attempt.user_id user_shard_num in
      let shard = get_or store.user_shards index [] in
      elim (found_or_new (find shard attempt.user_id) can_update_failure new_user_state) [
        | none ↦ (store, out)
        | some state0 ↦
            let state = if can_update_failure then fail_user state0 attempt now_ms else state0 in
            let (counter, failures) =
              SlidingCounter.sum counter_buckets state.login_fail_5m now_ms in
            (
              record store {
                user_shards =
                    set store.user_shards index
                      (put shard attempt.user_id (record state { login_fail_5m = counter }));
              },
              record out { user_login_fail_5m = failures },
            )
      ]

  unfoldable pub update_ip :
      LoginFeatureStore
      → LoginAttempt
      → ℕ
      → LoginFeatureSnapshot
      → LoginFeatureStore × LoginFeatureSnapshot
  unfolding is_within_window fail_ip SlidingCounter.sum SlidingDistinct.count
  update_ip store attempt now_ms out =
      let can_update_failure =
        is_fail attempt.result && is_within_window attempt.timestamp_ms now_ms distinct_window_ms in
      let index = shard_index attempt.ip distinct_shard_num in
      let shard = get_or store.ip_shards index [] in
      elim (found_or_new (find shard attempt.ip) can_update_failure new_ip_state) [
        | none ↦ (store, out)
        | some state0 ↦
            let state = if can_update_failure then fail_ip state0 attempt now_ms else state0 in
            let (members, users) = SlidingDistinct.count state.distinct now_ms in
            let (counter, failures) =
              SlidingCounter.sum counter_buckets state.failures_10m now_ms in
            (
              record store {
                ip_shards = set store.ip_shards index (
                    put shard attempt.ip
                      (record state { distinct = members; failures_10m = counter }));
              },
              record out { ip_distinct_failed_user_10m = users; ip_login_failures_10m = failures },
            )
      ]

  unfoldable pub update_device :
      LoginFeatureStore
      → LoginAttempt
      → ℕ
      → LoginFeatureSnapshot
      → LoginFeatureStore × LoginFeatureSnapshot
  unfolding is_within_window touch_device SlidingDistinct.count
  update_device store attempt now_ms out =
      let within = is_within_window attempt.timestamp_ms now_ms distinct_window_ms in
      let index = shard_index attempt.device_id distinct_shard_num in
      let shard = get_or store.device_shards index [] in
      elim (found_or_new (find shard attempt.device_id) within new_device_state) [
        | none ↦ (store, out)
        | some state0 ↦
            let state = if within then touch_device state0 attempt now_ms else state0 in
            let (members, accounts) = SlidingDistinct.count state.distinct now_ms in
            (
              record store {
                device_shards =
                    set store.device_shards index
                      (put shard attempt.device_id (record state { distinct = members }));
              },
              record out { device_distinct_account_10m = accounts },
            )
      ]

  abbrev no_features : LoginFeatureSnapshot
  no_features = record {
    user_login_fail_5m = 0;
    ip_distinct_failed_user_10m = 0;
    device_distinct_account_10m = 0;
    ip_login_failures_10m = 0;
  }

  unfoldable pub update_and_get :
      LoginFeatureStore → LoginAttempt → ℕ → LoginFeatureStore × LoginFeatureSnapshot
  unfolding update_user update_ip update_device
  update_and_get s0 attempt now_ms =
      let (s1, o1) = update_user s0 attempt now_ms no_features in
      let (s2, o2) = update_ip s1 attempt now_ms o1 in update_device s2 attempt now_ms o2

unfoldable pub reclaim_cold_states : LoginFeatureStore → ℕ → LoginFeatureStore
unfolding is_expired
reclaim_cold_states store now_ms = record store {
  user_shards =
      map (keep_if (λ state. not (is_expired state.last_seen_ms now_ms store.config.user_ttl_ms)))
        store.user_shards;
  ip_shards =
      map (keep_if (λ state. not (is_expired state.last_seen_ms now_ms store.config.ip_ttl_ms)))
        store.ip_shards;
  device_shards =
      map (keep_if (λ state. not (is_expired state.last_seen_ms now_ms store.config.device_ttl_ms)))
        store.device_shards;
}

abbrev size_of_shards {ℓ} : {A : Type ℓ} → List (Map A) → ℕ
size_of_shards [] = 0
size_of_shards (shard ∷ shards) = add_size (length shard) (size_of_shards shards)

abbrev members_of {ℓ} : {A : Type ℓ} → (A → ℕ) → Map A → ℕ
members_of size [] = 0
members_of size ((key, a) ∷ rest) = add_size (size a) (members_of size rest)

abbrev members_of_shards {ℓ} : {A : Type ℓ} → (A → ℕ) → List (Map A) → ℕ
members_of_shards size [] = 0
members_of_shards size (shard ∷ shards) =
    add_size (members_of size shard) (members_of_shards size shards)

unfoldable pub current_stats : LoginFeatureStore → FeatureStoreStats
unfolding active_member_count
current_stats store = record {
  user_state_count = size_of_shards store.user_shards;
  ip_state_count = size_of_shards store.ip_shards;
  ip_distinct_member_count =
      members_of_shards (λ (s : IpFeatureState). active_member_count s.distinct) store.ip_shards;
  device_state_count = size_of_shards store.device_shards;
  device_distinct_member_count =
      members_of_shards (λ (s : DeviceFeatureState). active_member_count s.distinct)
        store.device_shards;
}
