-- ===== src/Feature/SlidingDistinct.antt =====
-- sliding_distinct.hpp (include/aegisflow/feature): how many members were seen in the last buckets.
use aegis_flow.Prelude.{
  ℕ, zero, suc, ◌+◌, ◌-◌, ◌/◌, ◌%◌, ◌^◌, Bool, true, false, not, ◌&&◌, ◌||◌, Option, none, some,
  List, [], ◌∷◌, Bytes, ◌==ᵇ◌, ltb, leb, ◌==◌, if◌then◌else◌, length,
}
pub mod Members

pub record Entry : Type 0 where
  pub bucket : ℕ
  pub member : Bytes

-- `last_seen_bucket` is the hash map as an association list with distinct keys; `expired_queue` is
-- the priority queue as a list in the order of the buckets, the top first.
pub record SlidingDistinct : Type 0 where
  pub window_bucket_num : ℕ
  pub bucket_ms : ℕ
  pub max_members : ℕ
  pub last_now_bucket : ℕ
  pub clock_initialized : Bool
  pub last_seen_bucket : List (Bytes × ℕ)
  pub expired_queue : List Entry

-- none where the constructor throws.
unfoldable pub new_distinct : ℕ → ℕ → ℕ → Option SlidingDistinct
new_distinct window_ms bucket_ms max_members =
    if (window_ms == 0)
      || (bucket_ms == 0)
      || ltb window_ms bucket_ms
      || not (window_ms % bucket_ms == 0)
      || (max_members == 0)
    then none
    else some (record {
      window_bucket_num = window_ms / bucket_ms;
      bucket_ms = bucket_ms;
      max_members = max_members;
      last_now_bucket = 0;
      clock_initialized = false;
      last_seen_bucket = [];
      expired_queue = [];
    })

unfoldable pub find_member : List (Bytes × ℕ) → Bytes → Option ℕ
find_member [] member = none
find_member ((key, bucket) ∷ rest) member =
    if key ==ᵇ member then some bucket else find_member rest member

unfoldable pub erase_member : List (Bytes × ℕ) → Bytes → List (Bytes × ℕ)
erase_member [] member = []
erase_member ((key, bucket) ∷ rest) member =
    let rest' = erase_member rest member in if key ==ᵇ member then rest else (key, bucket) ∷ rest'

-- `found->second = bucket`
unfoldable pub refresh_member : List (Bytes × ℕ) → Bytes → ℕ → List (Bytes × ℕ)
refresh_member [] member bucket = []
refresh_member ((key, old) ∷ rest) member bucket =
    let rest' = refresh_member rest member bucket in
    if key ==ᵇ member then (key, bucket) ∷ rest else (key, old) ∷ rest'

-- `expired_queue_.push`: in front of the entries of later buckets.
unfoldable pub push_entry : Entry → List Entry → List Entry
push_entry e [] = e ∷ []
push_entry e (f ∷ fs) =
    let rest = push_entry e fs in if ltb e.bucket f.bucket then e ∷ f ∷ fs else f ∷ rest

unfoldable pub min_valid_bucket : SlidingDistinct → ℕ → ℕ
min_valid_bucket d now_bucket =
    if ltb now_bucket d.window_bucket_num then 0 else now_bucket - d.window_bucket_num + 1

-- An index entry is dropped only for the newest bucket of its member.
unfoldable pub drop_stale : List (Bytes × ℕ) → Entry → List (Bytes × ℕ)
unfolding find_member erase_member
drop_stale seen entry = elim (find_member seen entry.member) [
  | none ↦ seen
  | some bucket ↦ if bucket == entry.bucket then erase_member seen entry.member else seen
]

-- The loop of `expire`.
unfoldable pub expire_queue : ℕ → List Entry → List (Bytes × ℕ) → List Entry × List (Bytes × ℕ)
unfolding drop_stale
expire_queue minimum [] seen = ([], seen)
expire_queue minimum (entry ∷ entries) seen =
    let rest = expire_queue minimum entries (drop_stale seen entry) in
    if ltb entry.bucket minimum then rest else (entry ∷ entries, seen)

unfoldable pub expire : SlidingDistinct → ℕ → SlidingDistinct
unfolding expire_queue min_valid_bucket
expire d now_ms =
    let now_bucket = now_ms / d.bucket_ms in
    let back = d.clock_initialized && ltb now_bucket d.last_now_bucket in
    let seen0 = if back then [] else d.last_seen_bucket in
    let queue0 = if back then [] else d.expired_queue in
    let (queue, seen) = expire_queue (min_valid_bucket d now_bucket) queue0 seen0 in
    record d {
      clock_initialized = true;
      last_now_bucket = now_bucket;
      last_seen_bucket = seen;
      expired_queue = queue;
    }

unfoldable pub add : SlidingDistinct → Bytes → ℕ → ℕ → SlidingDistinct × Bool
unfolding expire find_member refresh_member push_entry min_valid_bucket
add d0 member event_ts_ms now_ms =
    let d = expire d0 now_ms in
    let event_bucket = event_ts_ms / d.bucket_ms in
    let now_bucket = now_ms / d.bucket_ms in
    if ltb now_bucket event_bucket || ltb event_bucket (min_valid_bucket d now_bucket)
    then (d, false)
    else let entry : Entry = record { bucket = event_bucket; member = member } in
      elim (find_member d.last_seen_bucket member) [
        | some bucket ↦ if leb event_bucket bucket then (d, true) else (
          record d {
            expired_queue = push_entry entry d.expired_queue;
            last_seen_bucket = refresh_member d.last_seen_bucket member event_bucket;
          },
          true,
        )
        | none ↦ if leb d.max_members (length d.last_seen_bucket) then (d, false) else (
          record d {
            last_seen_bucket = (member, event_bucket) ∷ d.last_seen_bucket;
            expired_queue = push_entry entry d.expired_queue;
          },
          true,
        )
      ]

unfoldable pub active_member_count : SlidingDistinct → ℕ
active_member_count d = length d.last_seen_bucket

unfoldable pub count : SlidingDistinct → ℕ → SlidingDistinct × ℕ
unfolding expire
count d0 now_ms = let d = expire d0 now_ms in (d, length d.last_seen_bucket % 2 ^ 32)
