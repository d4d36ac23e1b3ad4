-- ===== src/Feature/Store/Reclaim.antt =====
-- What `reclaimColdStates` of feature_store.cpp (src/feature) forgets.
use aegis_flow.Prelude.{
  ℕ, ◌+◌, ◌*◌, ◌≤◌, ◌<◌, ◌≡◌, refl, sym, ap, subst, if◌then◌else◌, ◌∙◌, ◌⊎◌, inl, inr, Bool, true,
  not, List, [], ◌∷◌, map, Bytes, arith, Bool-cases,
}
use aegis_flow.Feature.Maps.{Map, keep_if}
use aegis_flow.Feature.Store.{
  FeatureStateReclamationConfig, LoginUserState, IpFeatureState, DeviceFeatureState,
  LoginFeatureStore, is_valid_reclamation_config, validate_reclamation_config, is_expired,
  reclaim_cold_states,
}

-- The two checks of a configuration agree.
pub validate_reclamation_config_iff :
    (c : FeatureStateReclamationConfig)
    → validate_reclamation_config c ≡ is_valid_reclamation_config c
unfolding validate_reclamation_config is_valid_reclamation_config
validate_reclamation_config_iff c = ground arith

module _ {A : Type 0} where
  -- The key has the state.
  abbrev pub Has : Map A → Bytes → A → Type 0
  Has [] key a = ⊥
  Has ((k, b) ∷ m) key a = ((k ≡ key) × (b ≡ a)) ⊎ Has m key a

  -- What is left of a shard: just the states that were seen less than `ttl` ago, which are all those
  -- that were seen less than a window ago, and maybe more.
  pub record Reclaimed (seen : A → ℕ) (window ttl now_ms : ℕ) (before after : Map A) : Type 0 where
    pub only : (key : Bytes) (a : A) → Has after key a → Has before key a × (now_ms < seen a + ttl)
    pub kept : (key : Bytes) (a : A) → Has before key a → now_ms < seen a + ttl → Has after key a
    pub recent :
        (key : Bytes) (a : A) → Has before key a → now_ms < seen a + window → Has after key a

  -- Shard for shard.
  abbrev pub AllReclaimed : (A → ℕ) → ℕ → ℕ → ℕ → List (Map A) → List (Map A) → Type 0
  AllReclaimed seen window ttl now_ms [] [] = Unit
  AllReclaimed seen window ttl now_ms (before ∷ bs) (after ∷ cs) =
      Reclaimed seen window ttl now_ms before after × AllReclaimed seen window ttl now_ms bs cs
  AllReclaimed seen window ttl now_ms _ _ = ⊥

  keep_if-Has :
      (test : A → Bool) (m : Map A) (key : Bytes) (a : A)
      → Has (keep_if test m) key a
      → Has m key a × (test a ≡ true)
  unfolding keep_if
  keep_if-Has test [] key a h = elim h [ ]
  keep_if-Has test ((k, b) ∷ m) key a h = elim (Bool-cases (test b)) [
    | inl e ↦
        here (keep_if-Has test m key a) e
          (subst (λ t. Has (if t then (k, b) ∷ keep_if test m else keep_if test m) key a) e h)
    | inr e ↦ later (
        keep_if-Has test m key a
          (subst (λ t. Has (if t then (k, b) ∷ keep_if test m else keep_if test m) key a) e h))
  ]
    where
      later : Has m key a × (test a ≡ true) → Has ((k, b) ∷ m) key a × (test a ≡ true)
      later (there, passes) = (inr there, passes)

      here :
          (Has (keep_if test m) key a → Has m key a × (test a ≡ true))
          → test b ≡ true
          → Has ((k, b) ∷ keep_if test m) key a
          → Has ((k, b) ∷ m) key a × (test a ≡ true)
      here ih e (inl (same, at)) = (inl (same, at), ap test (sym at) ∙ e)
      here ih e (inr rest) = later (ih rest)

  Has-keep_if :
      (test : A → Bool) (m : Map A) (key : Bytes) (a : A)
      → Has m key a
      → test a ≡ true
      → Has (keep_if test m) key a
  unfolding keep_if
  Has-keep_if test [] key a h passes = elim h [ ]
  Has-keep_if test ((k, b) ∷ m) key a (inl (same, at)) passes =
      let e : test b ≡ true = ap test at ∙ passes in rw e (inl (same, at))
  Has-keep_if test ((k, b) ∷ m) key a (inr rest) passes = elim (Bool-cases (test b)) [
    | inl e ↦ rw e (inr (Has-keep_if test m key a rest passes))
    | inr e ↦ rw e (Has-keep_if test m key a rest passes)
  ]

  abbrev is_warm : (A → ℕ) → ℕ → ℕ → A → Bool
  is_warm seen ttl now_ms a = not (is_expired (seen a) now_ms ttl)

  module _ (seen : A → ℕ) (window ttl now_ms : ℕ) (long_enough : window ≤ ttl) where
    warm_le : (a : A) → is_warm seen ttl now_ms a ≡ true → now_ms < seen a + ttl
    unfolding is_expired
    warm_le a h = ground arith

    le_warm : (a : A) → now_ms < seen a + ttl → is_warm seen ttl now_ms a ≡ true
    unfolding is_expired
    le_warm a h = ground arith

    keep_if-Reclaimed :
        (m : Map A) → Reclaimed seen window ttl now_ms m (keep_if (is_warm seen ttl now_ms) m)
    keep_if-Reclaimed m = record {
      only = λ key a h.
          let (there, passes) = keep_if-Has (is_warm seen ttl now_ms) m key a h in
          (there, warm_le a passes);
      kept = λ key a h l. Has-keep_if (is_warm seen ttl now_ms) m key a h (le_warm a l);
      recent = λ key a h l.
          Has-keep_if (is_warm seen ttl now_ms) m key a h (le_warm a (omega (arith, long_enough)));
    }

    map-AllReclaimed :
        (shards : List (Map A))
        → AllReclaimed seen window ttl now_ms shards
            (map (keep_if (is_warm seen ttl now_ms)) shards)
    map-AllReclaimed [] = tt
    map-AllReclaimed (m ∷ shards) = (keep_if-Reclaimed m, map-AllReclaimed shards)

-- What is left of a store: five minutes count for users, ten for addresses and devices.
pub record Reclaims (store : LoginFeatureStore) (now_ms : ℕ) (store' : LoginFeatureStore)
    : Type 0 where
  pub config : store'.config ≡ store.config
  pub users :
      AllReclaimed
        (λ (a : LoginUserState). a.last_seen_ms)
        (5 * 60 * 1000)
        store.config.user_ttl_ms
        now_ms
        store.user_shards
        store'.user_shards
  pub ips :
      AllReclaimed
        (λ (a : IpFeatureState). a.last_seen_ms)
        (10 * 60 * 1000)
        store.config.ip_ttl_ms
        now_ms
        store.ip_shards
        store'.ip_shards
  pub devices :
      AllReclaimed
        (λ (a : DeviceFeatureState). a.last_seen_ms)
        (10 * 60 * 1000)
        store.config.device_ttl_ms
        now_ms
        store.device_shards
        store'.device_shards

-- With a valid configuration `reclaimColdStates` leaves in every shard just the states that were last
-- seen less than the time to live ago, or later than now; these are at least all that were last seen
-- less than a window ago.
pub reclaim_cold_states-Reclaims :
    (store : LoginFeatureStore) (now_ms : ℕ)
    → is_valid_reclamation_config store.config ≡ true
    → Reclaims store now_ms (reclaim_cold_states store now_ms)
unfolding is_valid_reclamation_config reclaim_cold_states
reclaim_cold_states-Reclaims store now_ms h = record {
  config = refl;
  users =
      map-AllReclaimed (λ (a : LoginUserState). a.last_seen_ms) (5 * 60 * 1000)
        store.config.user_ttl_ms now_ms (ground arith) store.user_shards;
  ips =
      map-AllReclaimed (λ (a : IpFeatureState). a.last_seen_ms) (10 * 60 * 1000)
        store.config.ip_ttl_ms now_ms (ground arith) store.ip_shards;
  devices =
      map-AllReclaimed (λ (a : DeviceFeatureState). a.last_seen_ms) (10 * 60 * 1000)
        store.config.device_ttl_ms now_ms (ground arith) store.device_shards;
}
