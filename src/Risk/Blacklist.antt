-- ===== src/Risk/Blacklist.antt =====
-- blacklist_snapshot.cpp and blacklist_manager.cpp (src/risk): the entries in force, built from a
-- list in one piece and published whole.
use aegis_flow.Prelude.{
  ℕ, ◌+◌, max, Bool, true, false, not, ◌&&◌, ◌||◌, Option, none, some, List, [], ◌∷◌, Bytes, ◌==ᵇ◌,
  ltb, leb, ◌==◌, if◌then◌else◌,
}
use aegis_flow.Risk.Types.{EntityType, user, ip, device, BlacklistEntry, LoginBlacklistMatches}
pub mod Lookup

-- `std::unordered_map<std::string, std::uint64_t>` as an association list with distinct keys.
abbrev pub EntryMap : Type 0
EntryMap = List (Bytes × ℕ)

unfoldable pub find : EntryMap → Bytes → Option ℕ
find [] id = none
find ((key, at) ∷ rest) id = if key ==ᵇ id then some at else find rest id

pub record BlacklistSnapshot : Type 0 where
  pub users : EntryMap
  pub ips : EntryMap
  pub devices : EntryMap

abbrev is_empty : Bytes → Bool
is_empty [] = true
is_empty (b ∷ bs) = false

unfoldable pub contains : EntryMap → Bytes → ℕ → Bool
unfolding find
contains entries id now_ms = if is_empty id then false else elim (find entries id) [
  | none ↦ false
  | some expire_at_ms ↦ (expire_at_ms == 0) || ltb now_ms expire_at_ms
]

unfoldable pub snapshot_matches :
    BlacklistSnapshot → Bytes → Bytes → Bytes → ℕ → LoginBlacklistMatches
unfolding contains
snapshot_matches s user_id ip_text device_id now_ms = record {
  user_hit = contains s.users user_id now_ms;
  ip_hit = contains s.ips ip_text now_ms;
  device_hit = contains s.devices device_id now_ms;
}

-- What the map keeps of two expiries: a permanent one wins, else the later.
abbrev pub later : ℕ → ℕ → ℕ
later old new = if (old == 0) || (new == 0) then 0 else max old new

unfoldable pub merge_expiry : EntryMap → Bytes → ℕ → EntryMap
merge_expiry [] id expire_at_ms = (id, expire_at_ms) ∷ []
merge_expiry ((key, at) ∷ rest) id expire_at_ms =
    let rest' = merge_expiry rest id expire_at_ms in
    if key ==ᵇ id then (key, later at expire_at_ms) ∷ rest else (key, at) ∷ rest'

abbrev pub is_expired : BlacklistEntry → ℕ → Bool
is_expired entry now_ms = not (entry.expire_at_ms == 0) && leb entry.expire_at_ms now_ms

-- The map of the entry's type takes it.
unfoldable pub merge_into : EntityType → BlacklistSnapshot → Bytes → ℕ → BlacklistSnapshot
unfolding merge_expiry
merge_into user s id expire_at_ms = record s { users = merge_expiry s.users id expire_at_ms }
merge_into ip s id expire_at_ms = record s { ips = merge_expiry s.ips id expire_at_ms }
merge_into device s id expire_at_ms = record s { devices = merge_expiry s.devices id expire_at_ms }

-- none where the entry has no id.
unfoldable pub add_entry : BlacklistSnapshot → BlacklistEntry → ℕ → Option BlacklistSnapshot
unfolding merge_into
add_entry s entry now_ms =
    if is_empty entry.id
    then none
    else if is_expired entry now_ms
    then some s
    else some (merge_into entry.type s entry.id entry.expire_at_ms)

unfoldable pub add_entries : BlacklistSnapshot → List BlacklistEntry → ℕ → Option BlacklistSnapshot
unfolding add_entry
add_entries s [] now_ms = some s
add_entries s (entry ∷ entries) now_ms = elim (add_entry s entry now_ms) [
  | none ↦ none
  | some s' ↦ add_entries s' entries now_ms
]

-- The first pass over the entries, which sizes the maps; none where it returns `nullptr`.
unfoldable pub count_entries : List BlacklistEntry → ℕ → Option (ℕ × ℕ × ℕ)
count_entries [] now_ms = some (0, 0, 0)
count_entries (entry ∷ entries) now_ms =
    let rest = count_entries entries now_ms in
    if is_empty entry.id then none else if is_expired entry now_ms then rest else elim rest [
      | none ↦ none
      | some (users, ips, devices) ↦ elim entry.type [
        | user ↦ some (1 + users, ips, devices)
        | ip ↦ some (users, 1 + ips, devices)
        | device ↦ some (users, ips, 1 + devices)
      ]
    ]

abbrev pub empty_snapshot : BlacklistSnapshot
empty_snapshot = record { users = []; ips = []; devices = [] }

unfoldable pub prepare_candidate : List BlacklistEntry → ℕ → Option BlacklistSnapshot
unfolding count_entries add_entries
prepare_candidate entries now_ms = elim (count_entries entries now_ms) [
  | none ↦ none
  | some _ ↦ add_entries empty_snapshot entries now_ms
]

-- The manager holds the snapshot that readers see, none before the first publication.
pub record BlacklistManager : Type 0 where
  pub snapshot : Option BlacklistSnapshot

abbrev pub publish_candidate : BlacklistManager → Option BlacklistSnapshot → BlacklistManager × Bool
publish_candidate m none = (m, false)
publish_candidate m (some candidate) = (record { snapshot = some candidate }, true)

unfoldable pub publish : BlacklistManager → List BlacklistEntry → ℕ → BlacklistManager × Bool
unfolding prepare_candidate
publish m entries now_ms = publish_candidate m (prepare_candidate entries now_ms)

unfoldable pub manager_matches :
    BlacklistManager → Bytes → Bytes → Bytes → ℕ → LoginBlacklistMatches
unfolding snapshot_matches
manager_matches m user_id ip_text device_id now_ms = elim m.snapshot [
  | none ↦ record { user_hit = false; ip_hit = false; device_hit = false }
  | some s ↦ snapshot_matches s user_id ip_text device_id now_ms
]
