-- ===== src/Timer/Core/Ready.antt =====
-- A cycle of `runReady` of timer_core.cpp (src/timer) that no other thread gets in between.
use aegis_flow.Prelude.{
  ℕ, zero, suc, ◌≤◌, ◌<◌, ◌≡◌, refl, sym, subst, ap, ◌⊎◌, ◌∙◌, inl, inr, Bool, true, false, ◌||◌,
  some, List, [], ◌∷◌, arith, ltb, if◌then◌else◌, Bool-cases, length,
}
use aegis_flow.Timer.Types.{TimerId}
use aegis_flow.Timer.State.{
  TimerCoreConfig, Reservation, HeapNode, Command, schedule, stop, TimerCore, TimerCycleResult,
  erase, is_active, is_cancelled,
}
use aegis_flow.Timer.Core.{
  process_command, clean, cleanup_stale, process_all, process_commands, breaks, fires, take_top,
  take_ready, follow, ready_turns, run_ready,
}
use aegis_flow.Timer.Core.Fired.{clean-keeps, fired_or_active, has_stop, process_all-reservations}
use aegis_flow.Timer.Core.Heap.{
  AllFrom, AllFrom-le, IsSorted, has_node, IsKept, clean-IsSorted, clean-IsBacked, skip-IsBacked,
  erase-active, process_all-IsKept,
}

abbrev pub AllUntil : ℕ → List HeapNode → Type 0
AllUntil now [] = Unit
AllUntil now (node ∷ nodes) = (node.deadline ≤ now) × AllUntil now nodes

clean-length :
    (heap : List HeapNode) (m : List (ℕ × Reservation)) → length (clean heap m).0 ≤ length heap
unfolding clean
clean-length [] m = omega arith
clean-length (node ∷ rest) m = elim (Bool-cases (is_active m node.id)) [
  | inl e ↦ rw e (omega arith)
  | inr e ↦ rw e (
      omega
        (arith, clean-length rest (if is_cancelled m node.id then erase m node.id.value else m)))
]

clean-AllFrom :
    (at : ℕ) (heap : List HeapNode) (m : List (ℕ × Reservation))
    → AllFrom at heap
    → AllFrom at (clean heap m).0
unfolding clean
clean-AllFrom at [] m h = tt
clean-AllFrom at (node ∷ rest) m h = elim (Bool-cases (is_active m node.id)) [
  | inl e ↦ rw e h
  | inr e ↦ rw e (clean-AllFrom at rest _ h.1)
]

cleanup-IsKept : (s : TimerCore) → IsKept [] s → IsKept [] (cleanup_stale s)
unfolding cleanup_stale
cleanup-IsKept s k = record {
  sorted = clean-IsSorted s.heap s.reservations k.sorted;
  backed = clean-IsBacked [] s.heap s.reservations k.backed;
}

-- What the loop leaves: the timers of `r.1` fire in the order of their deadlines, all of them due;
-- every timer that was active is one of these or is still active; and every timer that is still active
-- is in the heap, not yet due.
pub record Drained (now : ℕ) (s : TimerCore) (r : TimerCore × List HeapNode) : Type 0 where
  pub kept : IsKept [] r.0
  pub later : AllFrom (suc now) r.0.heap
  pub due : AllUntil now r.1
  pub order : IsSorted r.1
  pub from : (at : ℕ) → AllFrom at s.heap → AllFrom at r.1
  pub fired :
      (id : TimerId)
      → is_active s.reservations id ≡ true
      → (has_node r.1 id ≡ true) ⊎ (is_active r.0.reservations id ≡ true)

abbrev Drains : ℕ → ℕ → Type 0
Drains fuel now =
    (s : TimerCore)
    → s.stop_requested ≡ false
    → length s.heap < fuel
    → IsKept [] s
    → Drained now s (ready_turns fuel now s)

module _ (fuel now : ℕ) (next : Drains fuel now) where
  idle : (s : TimerCore) → IsKept [] s → AllFrom (suc now) s.heap → Drained now s (s, [])
  idle s k l = record {
    kept = k;
    later = l;
    due = tt;
    order = tt;
    from = λ at h. tt;
    fired = λ id on. inr on;
  }

  top_drains :
      (heap : List HeapNode) (s : TimerCore)
      → s.stop_requested ≡ false
      → length heap ≤ fuel
      → IsKept [] (record s { heap = heap })
      → Drained now
          (record s { heap = heap })
          (follow (ready_turns fuel now) (take_top now (record s { heap = heap })))
  unfolding take_top
  top_drains [] s going l k = idle _ k tt
  top_drains (node ∷ rest) s going l k = elim (Bool-cases (ltb now node.deadline)) [
    | inl early ↦ rw early (idle _ k (ground arith, AllFrom-le rest (ground arith) k.sorted.0))
    | inr due ↦ elim (Bool-cases (is_active s.reservations node.id)) [
      | inl active ↦ rw (due, active) (posts active (ground arith))
      | inr stale ↦
          rw (due, stale)
            (let skipped : IsKept [] (record s { heap = rest }) = record {
              sorted = k.sorted.1;
              backed = skip-IsBacked [] node rest s.reservations stale k.backed;
            } in
              let d = next (record s { heap = rest }) going (omega arith) skipped in
              record {
                kept = d.kept;
                later = d.later;
                due = d.due;
                order = d.order;
                from = λ at h. d.from at h.1;
                fired = d.fired;
              })
    ]
  ]
    where
      without :
          IsKept [] (record s { heap = rest; reservations = erase s.reservations node.id.value })
      without = record {
        sorted = k.sorted.1;
        backed = λ id on.
            let (was, other) = erase-active s.reservations node.id.value id on in
            ground (arith, k.backed id was);
      }

      posts :
          is_active s.reservations node.id ≡ true
          → node.deadline ≤ now
          → Drained now
              (record s { heap = node ∷ rest })
              (follow (ready_turns fuel now) (
                fires node
                  (record s { heap = rest; reservations = erase s.reservations node.id.value })))
      posts active at_most =
          let d =
            next (record s { heap = rest; reservations = erase s.reservations node.id.value }) going
              (omega arith) without in
          record {
            kept = d.kept;
            later = d.later;
            due = (at_most, d.due);
            order = (d.from node.deadline k.sorted.0, d.order);
            from = λ at h. (h.0, d.from at h.1);
            fired = λ id on. elim (fired_or_active s.reservations node.id id active on) [
              | inl same ↦ inl (ground arith)
              | inr still ↦ elim (d.fired id still) [
                | inl there ↦ inl (ground arith)
                | inr on' ↦ inr on'
              ]
            ];
          }

  turn_drains :
      (s : TimerCore)
      → s.stop_requested ≡ false
      → length s.heap ≤ fuel
      → IsKept [] s
      → Drained now s (ready_turns (suc fuel) now s)
  unfolding ready_turns take_ready cleanup_stale
  turn_drains s going l k =
      let d =
        top_drains (cleanup_stale s).heap (cleanup_stale s) going
          (omega (arith, clean-length s.heap s.reservations)) (cleanup-IsKept s k) in
      subst
        (λ b.
          Drained now s (
            follow (ready_turns fuel now) (if b then breaks s else take_top now (cleanup_stale s))))
        (sym going)
        (record {
          kept = d.kept;
          later = d.later;
          due = d.due;
          order = d.order;
          from = λ at h. d.from at (clean-AllFrom at s.heap s.reservations h);
          fired = λ id on. d.fired id (clean-keeps s.heap s.reservations id on);
        })

drains : (fuel now : ℕ) → Drains fuel now
drains zero now s going l k = absurd (omega arith)
drains (suc fuel) now s going l k = turn_drains fuel now (drains fuel now) s going (omega arith) k

process_all-stop :
    (s : TimerCore) (cs : List Command) → (process_all s cs).stop_requested ≡ s.stop_requested
unfolding process_all process_command
process_all-stop s [] = refl
process_all-stop s (schedule node ∷ cs) =
    process_all-stop (process_command s (schedule node)) cs ∙ ground arith
process_all-stop s (stop ∷ cs) = process_all-stop (process_command s stop) cs

-- What a cycle does that nobody stops: `r.2` are posted, in the order of their deadlines and all of
-- them due; every timer that was active is posted or is still active, unless a command stops the
-- timers; and every timer that is then active has its node in the heap, where none is due yet.
pub record Cycle (now : ℕ) (s : TimerCore) (r : TimerCore × TimerCycleResult × List HeapNode)
    : Type 0 where
  pub due : AllUntil now r.2
  pub order : IsSorted r.2
  pub fired :
      (id : TimerId)
      → has_stop s.commands ≡ false
      → is_active s.reservations id ≡ true
      → (has_node r.2 id ≡ true) ⊎ (is_active r.0.reservations id ≡ true)
  pub later : AllFrom (suc now) r.0.heap
  pub backed : (id : TimerId) → is_active r.0.reservations id ≡ true → has_node r.0.heap id ≡ true
  pub dispatched : r.1.timers_dispatched ≡ length r.2

or_none : (b : Bool) → b || false ≡ true → b ≡ true
or_none true h = refl
or_none false h = h

configured-Cycle :
    (s : TimerCore) (c : TimerCoreConfig) (now : ℕ)
    → s.stop_requested ≡ false
    → IsKept s.commands s
    → Cycle now s (run_ready (record s { config = some c }) now)
unfolding run_ready process_commands cleanup_stale
configured-Cycle s c now going k =
    let start : TimerCore = record s { config = some c; commands = [] } in
    let s1 = cleanup_stale (process_all start s.commands) in
    let kept =
      cleanup-IsKept (process_all start s.commands)
        (process_all-IsKept start s.commands (record { sorted = k.sorted; backed = k.backed })) in
    let going1 : s1.stop_requested ≡ false = process_all-stop start s.commands ∙ going in
    let d = drains (suc (length s1.heap)) now s1 going1 (omega arith) kept in
    let s2 = (ready_turns (suc (length s1.heap)) now s1).0 in
    let last = cleanup-IsKept s2 d.kept in
    record {
      due = d.due;
      order = d.order;
      fired = λ id none_stops on.
          let before : is_active (process_all start s.commands).reservations id ≡ true =
            ap (λ m. is_active m id) (process_all-reservations start s.commands none_stops) ∙ on in
          elim (d.fired id (clean-keeps (process_all start s.commands).heap _ id before)) [
            | inl there ↦ inl there
            | inr still ↦ inr (clean-keeps s2.heap s2.reservations id still)
          ];
      later = clean-AllFrom (suc now) s2.heap s2.reservations d.later;
      backed = λ id on. or_none _ (last.backed id on);
      dispatched = refl;
    }

-- A cycle of `runReady` of timers that are configured and not stopped posts only timers that are
-- due, in the order of their deadlines. Without a command to stop, every timer that was active is
-- posted or is still active, and every timer that is active when it ends has its node in the heap,
-- where none is due. So no timer that is due is left out.
pub run_ready-Cycle :
    (s : TimerCore) (c : TimerCoreConfig) (now : ℕ)
    → s.config ≡ some c
    → s.stop_requested ≡ false
    → IsKept s.commands s
    → Cycle now s (run_ready s now)
run_ready-Cycle s c now configured going k =
    subst (λ o. Cycle now s (run_ready (record s { config = o }) now)) (sym configured)
      (configured-Cycle s c now going k)
