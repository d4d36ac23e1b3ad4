-- ===== src/Risk/Mutation.antt =====
-- blacklist_mutation.hpp and blacklist_mutation.cpp (include/aegisflow/risk, src/risk): a change of
-- the blacklist, valid by construction.
use aegis_flow.Prelude.{
  ℕ, Bool, not, ◌&&◌, ◌||◌, Option, none, some, [], Bytes, ltb, leb, ◌==◌, if◌then◌else◌, length,
}
use aegis_flow.Domain.IpAddress.{IpAddress, Family, contains_null, parse}
use aegis_flow.Risk.Types.{EntityType, user, ip, device}

pub data BlacklistMutationOperation : Type 0 where
  upsert disable clear_all : BlacklistMutationOperation

pub record BlacklistMutation : Type 0 where
  pub operation : BlacklistMutationOperation
  pub entity_type : Option EntityType
  pub id : Bytes
  pub reason : Bytes
  pub expire_at_ms : ℕ

abbrev pub max_entity_id_bytes : ℕ
max_entity_id_bytes = 128

abbrev pub max_reason_bytes : ℕ
max_reason_bytes = 256

abbrev pub max_expire_at_ms : ℕ
max_expire_at_ms = 253402300799999

unfoldable pub valid_text : Bytes → ℕ → Bool
valid_text value max_bytes =
    not (length value == 0) && leb (length value) max_bytes && not (contains_null value)

abbrev pub clear_all_mutation : BlacklistMutation
clear_all_mutation = record {
  operation = BlacklistMutationOperation.clear_all;
  entity_type = none;
  id = [];
  reason = [];
  expire_at_ms = 0;
}

-- `upsert` once the id is normalized.
abbrev pub upsert_normalized : EntityType → Bytes → ℕ → Option Bytes → Option BlacklistMutation
upsert_normalized type reason expire_at_ms none = none
upsert_normalized type reason expire_at_ms (some normalized_id) =
    if not (valid_text reason max_reason_bytes) || ltb max_expire_at_ms expire_at_ms
    then none
    else some (record {
      operation = BlacklistMutationOperation.upsert;
      entity_type = some type;
      id = normalized_id;
      reason = reason;
      expire_at_ms = expire_at_ms;
    })

-- `inet_pton` and `inet_ntop` are the C library's.
module _ (inet_pton : Family → Bytes → Option Bytes)
    (inet_ntop : Family → Bytes → Option Bytes) where
  abbrev canonical_text_of : Option IpAddress → Option Bytes
  canonical_text_of none = none
  canonical_text_of (some address) = some address.canonical_text

  abbrev checked_id : Bytes → Option Bytes
  checked_id id = if not (valid_text id max_entity_id_bytes) then none else some id

  unfoldable pub normalize_id : EntityType → Bytes → Option Bytes
  normalize_id ip id = canonical_text_of (parse inet_pton inet_ntop id)
  normalize_id user id = checked_id id
  normalize_id device id = checked_id id

  unfoldable pub upsert_mutation : EntityType → Bytes → Bytes → ℕ → Option BlacklistMutation
  unfolding normalize_id
  upsert_mutation type id reason expire_at_ms =
      upsert_normalized type reason expire_at_ms (normalize_id type id)

  unfoldable pub disable_mutation : EntityType → Bytes → Option BlacklistMutation
  disable_mutation type id = elim (normalize_id type id) [
    | none ↦ none
    | some normalized_id ↦ some (record {
      operation = BlacklistMutationOperation.disable;
      entity_type = some type;
      id = normalized_id;
      reason = [];
      expire_at_ms = 0;
    })
  ]
