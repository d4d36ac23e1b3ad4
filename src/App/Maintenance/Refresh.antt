-- ===== src/App/Maintenance/Refresh.antt =====
-- What the refresh of blacklist_maintenance.cpp (src/app) publishes.
use aegis_flow.Prelude.{
  ℕ, ◌≤◌, ◌≡◌, refl, sym, ap, ◌∙◌, ◌⊎◌, inl, inr, Bool, true, false, not, ◌&&◌, ◌||◌, Option, none,
  some, List, [], Bytes, arith, leb, ◌==◌, if◌then◌else◌, Bool-cases,
}
use aegis_flow.Risk.Types.{EntityType, user, ip, device, BlacklistEntry}
use aegis_flow.Risk.Blacklist.{BlacklistManager, publish, manager_matches}
use aegis_flow.Risk.Blacklist.Lookup.{is_listed, all_have_ids, publish-matches, publish-refused}
use aegis_flow.App.Maintenance.{
  MaintenanceCore, RefreshAnswers, is_ok, usable, fold_unique, active_entries, expired_entries,
  some_entry, removed_revision, note_published, publish_active, after_load, after_revision,
  refresh_snapshot_and_expiry,
}
use aegis_flow.App.Maintenance.Folding.{fold_unique-listed, active-listed}

-- What a refresh leaves: all as it was, or a new publication of the store's snapshot. Then readers
-- see just the entries of the snapshot that are in force, the revision noted is that of the snapshot
-- or of the removal of its expired entries, and is to be reported.
pub record Published (c : MaintenanceCore) (a : RefreshAnswers) (now_ms : ℕ) (c' : MaintenanceCore)
    : Type 0 where
  pub in_order : is_ok a.snapshot.status ≡ true
  pub seen :
      (user_id ip_text device_id : Bytes) (t : ℕ)
      → now_ms ≤ t
      → manager_matches c'.manager user_id ip_text device_id t ≡ record {
        user_hit = is_listed a.snapshot.entries user user_id t;
        ip_hit = is_listed a.snapshot.entries ip ip_text t;
        device_hit = is_listed a.snapshot.entries device device_id t;
      }
  pub noted :
      (c'.state.last_published_revision ≡ a.snapshot.revision)
      ⊎ (usable a.removed ≡ some c'.state.last_published_revision)
  pub dirty : c'.state.publication_dirty ≡ true

abbrev pub Refreshed : MaintenanceCore → RefreshAnswers → ℕ → MaintenanceCore → Type 0
Refreshed c a now_ms c' = (c' ≡ c) ⊎ Published c a now_ms c'

removed_revision-noted :
    (a : RefreshAnswers) (cleanup_due : Bool) (expired : List BlacklistEntry) (revision : ℕ)
    → removed_revision a cleanup_due expired ≡ some revision
    → (revision ≡ a.snapshot.revision) ⊎ (usable a.removed ≡ some revision)
unfolding removed_revision
removed_revision-noted a cleanup_due expired revision h =
    elim (Bool-cases (cleanup_due && some_entry expired)) [
      | inr e ↦ inl (ground (arith, rw e at h))
      | inl e ↦ elim (Bool-cases a.stop_after_removal) [
        | inl f ↦ absurd (ground (arith, rw (e, f) at h))
        | inr f ↦ inr (rw (e, f) at h)
      ]
    ]

-- What readers see of a manager.
abbrev Sees : BlacklistManager → List BlacklistEntry → ℕ → Type 0
Sees m entries now_ms =
    (user_id ip_text device_id : Bytes) (t : ℕ)
    → now_ms ≤ t
    → manager_matches m user_id ip_text device_id t ≡ record {
      user_hit = is_listed entries user user_id t;
      ip_hit = is_listed entries ip ip_text t;
      device_hit = is_listed entries device device_id t;
    }

publish-Sees :
    (m : BlacklistManager) (es : List BlacklistEntry) (now_ms : ℕ)
    → (publish m es now_ms).1 ≡ true
    → Sees (publish m es now_ms).0 es now_ms
publish-Sees m es now_ms done user_id ip_text device_id t l = elim (Bool-cases (all_have_ids es)) [
  | inl full ↦ (publish-matches m es now_ms user_id ip_text device_id t l full).1
  | inr missing ↦
      absurd (ground (arith, sym (ap (λ r. r.1) (publish-refused m es now_ms missing)) ∙ done))
]

-- The active entries of the folded snapshot are seen as the entries of the snapshot.
active-Sees :
    (m : BlacklistManager) (entries unique : List BlacklistEntry) (now_ms : ℕ)
    → fold_unique [] entries ≡ some unique
    → Sees m (active_entries unique now_ms) now_ms
    → Sees m entries now_ms
active-Sees m entries unique now_ms folded sees user_id ip_text device_id t l =
    let same : (type : EntityType) (id : Bytes)
        → is_listed (active_entries unique now_ms) type id t ≡ is_listed entries type id t =
      λ type id.
        active-listed unique now_ms t type id l
        ∙ fold_unique-listed [] entries unique type id t folded in
    sees user_id ip_text device_id t l
    ∙ rw (same user user_id, same ip ip_text, same device device_id) refl

note-Refreshed :
    (c : MaintenanceCore) (a : RefreshAnswers) (cleanup_due : Bool) (revision now_ms steady_now : ℕ)
    (r : BlacklistManager × Bool)
    → is_ok a.snapshot.status ≡ true
    → (r.1 ≡ true → Sees r.0 a.snapshot.entries now_ms)
    → (revision ≡ a.snapshot.revision) ⊎ (usable a.removed ≡ some revision)
    → Refreshed c a now_ms (note_published c cleanup_due revision steady_now r)
note-Refreshed c a cleanup_due revision now_ms steady_now (m, false) good sees from = inl refl
note-Refreshed c a cleanup_due revision now_ms steady_now (m, true) good sees from =
    inr (record { in_order = good; seen = sees refl; noted = from; dirty = refl })

-- A test that holds leaves the core as it is.
unless :
    {c : MaintenanceCore} {a : RefreshAnswers} {now_ms : ℕ} {c' : MaintenanceCore} (b : Bool)
    → (b ≡ false → Refreshed c a now_ms c')
    → Refreshed c a now_ms (if b then c else c')
unless true going = inl refl
unless false going = going refl

publish_active-Refreshed :
    (c : MaintenanceCore) (a : RefreshAnswers) (cleanup_due : Bool) (unique : List BlacklistEntry)
    (now_ms steady_now : ℕ) (o : Option ℕ)
    → is_ok a.snapshot.status ≡ true
    → fold_unique [] a.snapshot.entries ≡ some unique
    → removed_revision a cleanup_due (expired_entries unique now_ms) ≡ o
    → Refreshed c a now_ms (publish_active c a cleanup_due unique now_ms steady_now o)
unfolding publish
publish_active-Refreshed c a cleanup_due unique now_ms steady_now none good folded h = inl refl
publish_active-Refreshed c a cleanup_due unique now_ms steady_now (some revision) good folded h =
    let es = active_entries unique now_ms in
    let r = publish c.manager es now_ms in
    unless a.stop_before_publication (λ _.
      note-Refreshed c a cleanup_due revision now_ms steady_now r good
        (λ done.
          active-Sees r.0 a.snapshot.entries unique now_ms folded
            (publish-Sees c.manager es now_ms done))
        (removed_revision-noted a cleanup_due (expired_entries unique now_ms) revision h))

after_load-Refreshed :
    (c : MaintenanceCore) (a : RefreshAnswers) (cleanup_due : Bool) (now_ms steady_now : ℕ)
    (o : Option (List BlacklistEntry))
    → is_ok a.snapshot.status ≡ true
    → fold_unique [] a.snapshot.entries ≡ o
    → Refreshed c a now_ms (after_load c a cleanup_due now_ms steady_now o)
after_load-Refreshed c a cleanup_due now_ms steady_now none good folded = inl refl
after_load-Refreshed c a cleanup_due now_ms steady_now (some unique) good folded =
    publish_active-Refreshed c a cleanup_due unique now_ms steady_now _ good folded refl

after_revision-Refreshed :
    (c : MaintenanceCore) (a : RefreshAnswers) (now_ms steady_now : ℕ) (o : Option ℕ)
    → Refreshed c a now_ms (after_revision c a now_ms steady_now o)
after_revision-Refreshed c a now_ms steady_now none = inl refl
after_revision-Refreshed c a now_ms steady_now (some revision) =
    let due = leb c.next_expire_cleanup steady_now in
    unless (not due && (revision == c.state.last_published_revision)) (λ _.
      unless (not (is_ok a.snapshot.status) || a.stop_after_load) (λ f.
        after_load-Refreshed c a due now_ms steady_now (fold_unique [] a.snapshot.entries)
          (ground (arith, f)) refl))

-- A refresh leaves the core as it was, or has published the store's snapshot: from then on readers
-- see just its entries that are in force, and the revision that is noted, and to be reported, is that
-- of the snapshot or of the removal of its expired entries.
pub refresh-Refreshed :
    (c : MaintenanceCore) (a : RefreshAnswers) (now_ms steady_now : ℕ)
    → Refreshed c a now_ms (refresh_snapshot_and_expiry c a now_ms steady_now)
unfolding refresh_snapshot_and_expiry
refresh-Refreshed c a now_ms steady_now =
    unless a.stop_at_start (λ _. after_revision-Refreshed c a now_ms steady_now (usable a.revision))
