-- ===== src/Runtime/WorkerPool/Workers.antt =====
-- The worker threads of bounded_worker_pool.cpp (src/runtime), counted.
use aegis_flow.Prelude.{
  ℕ, zero, suc, ◌+◌, ◌≤◌, ◌<◌, ◌≡◌, refl, ◌⊎◌, inl, Bool, true, false, ◌||◌, some, List, [], ◌∷◌,
  arith, get_elem?, set, length, replicate,
}
use aegis_flow.Runtime.WorkerPool.Threads.{Worker, idle, busy, gone, all_gone}

module _ {ℓ} {Task : Type ℓ} where
  abbrev pub load : Worker Task → ℕ
  load idle = 0
  load (busy t) = 1
  load gone = 0

  abbrev pub is_gone : Worker Task → Bool
  is_gone idle = false
  is_gone (busy t) = false
  is_gone gone = true

  abbrev pub total : (Worker Task → ℕ) → List (Worker Task) → ℕ
  total f [] = 0
  total f (w ∷ ws) = f w + total f ws

  -- How many workers have a task.
  abbrev pub at_work : List (Worker Task) → ℕ
  at_work ws = total load ws

  abbrev pub some_gone : List (Worker Task) → Bool
  some_gone [] = false
  some_gone (w ∷ ws) = is_gone w || some_gone ws

  load_le : (w : Worker Task) → load w ≤ 1
  load_le idle = omega arith
  load_le (busy t) = omega arith
  load_le gone = omega arith

  pub at_work-length : (ws : List (Worker Task)) → at_work ws ≤ length ws
  at_work-length [] = omega arith
  at_work-length (w ∷ ws) = omega (arith, load_le w, at_work-length ws)

  pub total-set :
      (f : Worker Task → ℕ) (ws : List (Worker Task)) (i : ℕ) (old new : Worker Task)
      → get_elem? ws i ≡ some old
      → total f (set ws i new) + f old ≡ total f ws + f new
  total-set f [] i old new h = ground arith
  total-set f (w ∷ ws) zero old new h = ground arith
  total-set f (w ∷ ws) (suc i) old new h = omega (arith, total-set f ws i old new h)

  pub at_work-set :
      (ws : List (Worker Task)) (i : ℕ) (old new : Worker Task)
      → get_elem? ws i ≡ some old
      → at_work (set ws i new) + load old ≡ at_work ws + load new
  at_work-set ws i old new h = total-set load ws i old new h

  pub some_gone-set :
      (ws : List (Worker Task)) (i : ℕ) (new : Worker Task)
      → some_gone (set ws i new) ≡ true
      → (some_gone ws ≡ true) ⊎ (is_gone new ≡ true)
  some_gone-set [] i new h = inl h
  some_gone-set (w ∷ ws) zero new h = ground arith
  some_gone-set (w ∷ ws) (suc i) new h = ground (arith, some_gone-set ws i new)

  pub all_gone-none : (ws : List (Worker Task)) → all_gone ws ≡ true → at_work ws ≡ 0
  all_gone-none [] h = refl
  all_gone-none (gone ∷ ws) h = omega (arith, all_gone-none ws h)
  all_gone-none (idle ∷ ws) h = ground arith
  all_gone-none (busy t ∷ ws) h = ground arith

  pub all_gone-some :
      (ws : List (Worker Task)) → all_gone ws ≡ true → 0 < length ws → some_gone ws ≡ true
  all_gone-some [] h l = elim l [ ]
  all_gone-some (gone ∷ ws) h l = refl
  all_gone-some (idle ∷ ws) h l = ground arith
  all_gone-some (busy t ∷ ws) h l = ground arith

  pub all_gone-each :
      (ws : List (Worker Task)) (i : ℕ) (w : Worker Task)
      → all_gone ws ≡ true
      → get_elem? ws i ≡ some w
      → is_gone w ≡ true
  all_gone-each [] i w h at = ground arith
  all_gone-each (gone ∷ ws) zero w h at = ground arith
  all_gone-each (gone ∷ ws) (suc i) w h at = all_gone-each ws i w h at
  all_gone-each (idle ∷ ws) i w h at = ground arith
  all_gone-each (busy t ∷ ws) i w h at = ground arith

  pub find_worker :
      (ws : List (Worker Task))
      → all_gone ws ≡ false
      → (i : ℕ) × (w : Worker Task) × (get_elem? ws i ≡ some w) × (is_gone w ≡ false)
  find_worker [] h = absurd (ground arith)
  find_worker (gone ∷ ws) h = let (i, w, at, here) = find_worker ws h in (suc i, w, at, here)
  find_worker (idle ∷ ws) h = (0, idle, refl, refl)
  find_worker (busy t ∷ ws) h = (0, busy t, refl, refl)

pub started_idle {ℓ} :
    (Task : Type ℓ) (n : ℕ)
    → (at_work (replicate {A = Worker Task} n idle) ≡ 0)
      × (some_gone (replicate {A = Worker Task} n idle) ≡ false)
started_idle Task zero = (refl, refl)
started_idle Task (suc n) = (omega (arith, (started_idle Task n).0), (started_idle Task n).1)
