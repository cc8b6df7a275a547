-- ===== src/Klock/Tests.antt =====
-- Runs of the lock, and its law at them.
use facet_os.Prelude.{ℕ, ◌≤◌, ◌≡◌, refl, true, false, List, [], ◌∷◌}
use facet_os.Klock.{
  outside, idle_threads, init, Action, calls_lock, steps, calls_unlock, act, event, events,
}
use facet_os.Klock.Exclusion.{holders, bit, Disciplined, events-Exclusive}

-- Two threads call `klock_lock`; the first takes the lock, the second spins until it is free.
abbrev contended : List (ℕ × Action)
contended =
    (0, calls_lock)
    ∷ (1, calls_lock)
    ∷ (0, steps)
    ∷ (1, steps)
    ∷ (0, calls_unlock)
    ∷ (1, steps)
    ∷ (1, steps)
    ∷ []

contended-Disciplined : Disciplined (init (idle_threads 2)) contended
unfolding init event act
contended-Disciplined = (tt, (tt, (tt, (tt, (refl, (tt, (tt, tt)))))))

events-Exclusive_example :
    (holders (events (init (idle_threads 2)) contended).threads
      ≡ bit (events (init (idle_threads 2)) contended).locked)
    × (holders (events (init (idle_threads 2)) contended).threads ≤ 1)
events-Exclusive_example = events-Exclusive 2 contended contended-Disciplined

events_run : events (init (idle_threads 2)) contended ≡ record {
  locked = true;
  threads =
      record { place = outside; holding = false } ∷ record { place = outside; holding = true } ∷ [];
}
unfolding init events event act
events_run = refl

-- A thread that calls `klock_unlock` without the lock frees it, and then two threads hold it.
abbrev careless : List (ℕ × Action)
careless = (0, calls_lock) ∷ (0, steps) ∷ (1, calls_unlock) ∷ (1, calls_lock) ∷ (1, steps) ∷ []

careless_run : holders (events (init (idle_threads 2)) careless).threads ≡ 2
unfolding init events event act
careless_run = refl
