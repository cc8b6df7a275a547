-- ===== src/Klock/Exclusion.antt =====
-- src/dominit0/klock.c: the threads that hold the lock.
use facet_os.Prelude.{
  ℕ, zero, suc, ◌+◌, ◌≤◌, ◌≡◌, refl, ap, subst, inl, inr, Bool, true, false, Option, none, some,
  List, [], ◌∷◌, arith, Option-cases, get_elem?, set,
}
use facet_os.Klock.{
  Place, outside, trying, spinning, Thread, System, idle_threads, init, Action, calls_lock, steps,
  calls_trylock, calls_unlock, act, event, events,
}

-- 1 for true, 0 for false
abbrev pub bit : Bool → ℕ
bit true = 1
bit false = 0

abbrev pub holders : List Thread → ℕ
holders [] = 0
holders (t ∷ ts) = bit t.holding + holders ts

-- the lock is taken exactly if one thread holds it, and no more than one does
abbrev pub Counted : System → Type 0
Counted s = holders s.threads ≡ bit s.locked

-- Only a thread that holds the lock calls `klock_unlock`.
abbrev pub IsHolder : Option Thread → Type 0
IsHolder none = Unit
IsHolder (some t) = t.holding ≡ true

abbrev pub Allowed : Action → Option Thread → Type 0
Allowed calls_lock o = Unit
Allowed steps o = Unit
Allowed calls_trylock o = Unit
Allowed calls_unlock o = IsHolder o

abbrev pub Disciplined : System → List (ℕ × Action) → Type 0
Disciplined s [] = Unit
Disciplined s ((i, a) ∷ es) = Allowed a (get_elem? s.threads i) × Disciplined (event s (i, a)) es

abbrev holds_at : Option Thread → ℕ
holds_at none = 0
holds_at (some t) = bit t.holding

holds_of : (o p : Option Thread) → o ≡ p → holds_at o ≡ holds_at p
holds_of o p h = ap holds_at h

holds_le :
    (ts : List Thread) (i : ℕ) (t : Thread) → get_elem? ts i ≡ some t → bit t.holding ≤ holders ts
holds_le [] i t h = cc
holds_le (u ∷ ts) zero t h = omega (arith, holds_of (some u) (some t) h)
holds_le (u ∷ ts) (suc i) t h = omega (arith, holds_le ts i t h)

holders-set :
    (ts : List Thread) (i : ℕ) (t t' : Thread)
    → get_elem? ts i ≡ some t
    → holders (set ts i t') + bit t.holding ≡ holders ts + bit t'.holding
holders-set [] i t t' h = cc
holders-set (u ∷ ts) zero t t' h = omega (arith, holds_of (some u) (some t) h)
holders-set (u ∷ ts) (suc i) t t' h = omega (arith, holders-set ts i t t' h)

-- an action changes the lock and the thread alike
Balanced : Action → Bool → Place → Bool → Type 0
Balanced a locked place holding =
    bit holding ≤ bit locked
    → Allowed a (some (record { place = place; holding = holding }))
    → bit (act a locked (record { place = place; holding = holding })).0 + bit holding
      ≡ bit locked + bit (act a locked (record { place = place; holding = holding })).1.holding

act_lem :
    (a : Action) (locked : Bool) (place : Place) (holding : Bool) → Balanced a locked place holding
unfolding act Balanced
act_lem calls_lock b outside h k d = omega arith
act_lem calls_lock b trying h k d = omega arith
act_lem calls_lock b spinning h k d = omega arith
act_lem steps b outside h k d = omega arith
act_lem steps true trying h k d = omega arith
act_lem steps false trying true k d = absurd (omega arith)
act_lem steps false trying false k d = refl
act_lem steps b spinning h k d = omega arith
act_lem calls_trylock true outside true k d = refl
act_lem calls_trylock true outside false k d = refl
act_lem calls_trylock false outside true k d = absurd (omega arith)
act_lem calls_trylock false outside false k d = refl
act_lem calls_trylock b trying h k d = omega arith
act_lem calls_trylock b spinning h k d = omega arith
act_lem calls_unlock true outside true k d = refl
act_lem calls_unlock true outside false k d = cc
act_lem calls_unlock false outside true k d = absurd (omega arith)
act_lem calls_unlock false outside false k d = refl
act_lem calls_unlock b trying h k d = omega arith
act_lem calls_unlock b spinning h k d = omega arith

event-Counted :
    (s : System) (e : ℕ × Action)
    → Allowed e.1 (get_elem? s.threads e.0)
    → Counted s
    → Counted (event s e)
unfolding event Balanced
event-Counted s (i, a) d c = elim (Option-cases (get_elem? s.threads i)) [
  | inl none_there ↦ rw (none_there, event) c
  | inr (t, here) ↦
      rw (here, event)
        (omega (
          arith,
          c,
          holders-set s.threads i t (act a s.locked t).1 here,
          act_lem a s.locked t.place t.holding (omega (arith, c, holds_le s.threads i t here))
              (subst (Allowed a) here d),
        ))
]

events-Counted :
    (s : System) (es : List (ℕ × Action)) → Disciplined s es → Counted s → Counted (events s es)
unfolding events
events-Counted s [] d c = c
events-Counted s ((i, a) ∷ es) d c =
    events-Counted (event s (i, a)) es d.1 (event-Counted s (i, a) d.0 c)

no_holders : (n : ℕ) → holders (idle_threads n) ≡ 0
no_holders zero = refl
no_holders (suc n) = omega (arith, no_holders n)

bit_small : (b : Bool) → bit b ≤ 1
bit_small true = omega arith
bit_small false = omega arith

-- If only a thread that holds the lock calls `klock_unlock`, then in any order of the steps of any
-- number of threads, with a lock set up by `klock_init`, at most one thread holds the lock, and
-- the lock is taken exactly if one does.
pub events-Exclusive :
    (n : ℕ) (es : List (ℕ × Action))
    → Disciplined (init (idle_threads n)) es
    → (holders (events (init (idle_threads n)) es).threads
        ≡ bit (events (init (idle_threads n)) es).locked)
      × (holders (events (init (idle_threads n)) es).threads ≤ 1)
events-Exclusive n es d =
    (counted, omega (arith, counted, bit_small (events (init (idle_threads n)) es).locked))
  where
    counted : Counted (events (init (idle_threads n)) es)
    counted = events-Counted (init (idle_threads n)) es d (unfold init in no_holders n)
