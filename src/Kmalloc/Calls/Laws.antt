-- ===== src/Kmalloc/Calls/Laws.antt =====
-- src/dominit0/kmalloc.c: the lock, the multiplication in `calloc`, and the move to liballoc.
use facet_os.Prelude.{
  ℕ, zero, suc, ◌+◌, ◌-◌, ◌*◌, ◌/◌, ◌%◌, ◌^◌, ◌≤◌, ◌<◌, ◌≡◌, refl, ◌≢◌, ◌⊎◌, inl, inr, true, false,
  not, ◌&&◌, Option, none, some, arith, ltb, ◌==◌, Bool-cases,
}
use native.Mathlib.Nat.{mod-eq_of_lt}
use facet_os.Kmalloc.{heap_size, alignment, align, Heap, malloc_early}
use facet_os.Kmalloc.Calls.{
  Liballoc, liballoc, Kernel, Outcome, returned, panicked, waiting, malloc_by, enter, leave,
  kmalloc, kfree, krealloc, calloc, allocated, hand_over, reclaim, kmalloc_init,
}

module _ {S : Type 0} where
  -- the call ends, and leaves the lock free and the flag cleared
  abbrev pub Released : {A : Type 0} → Outcome S A → Type 0
  Released (returned a k) = (k.locked ≡ false) × (k.in_progress ≡ false)
  Released (panicked k) = (k.locked ≡ false) × (k.in_progress ≡ false)
  Released waiting = ⊥

module _ {S : Type 0} (lib : Liballoc S) where
  -- With the lock free, `kmalloc`, `kfree` and `krealloc` end, and free it and clear the flag
  -- again, whichever implementation is in use.
  pub calls-Released :
      (k : Kernel S) (p : Option ℕ) (size : ℕ)
      → k.locked ≡ false
      → Released (kmalloc lib k size) × Released (kfree lib k p) × Released (krealloc lib k p size)
  unfolding kmalloc kfree krealloc
  calls-Released k p size h = (
    rw h (
        ended (malloc_by lib k.implementation (enter lib k) size).0
          (malloc_by lib k.implementation (enter lib k) size).1),
    rw h (refl, refl),
    rw h (refl, refl),
  )
    where
      ended :
          (o : Option ℕ) (k' : Kernel S)
          → Released {A = ℕ}
              (elim o [ none ↦ panicked (leave lib k') | some q ↦ returned q (leave lib k') ])
      ended none k' = (refl, refl)
      ended (some q) k' = (refl, refl)

le_div : (c s m : ℕ) → c ≤ m / s → c * s ≤ m
le_div c s m h = grind arith

lt_div : (c s m : ℕ) → s ≢ 0 → m / s < c → m < c * s
lt_div c s m n h = grind arith

too_big :
    (count size : ℕ)
    → (not (size == 0) && ltb ((2 ^ 64 - 1) / size) count) ≡ true
    → 2 ^ 64 ≤ count * size
too_big count size h = omega (arith, lt_div count size (2 ^ 64 - 1) (ground arith) (ground arith))

no_wrap :
    (count size : ℕ)
    → (not (size == 0) && ltb ((2 ^ 64 - 1) / size) count) ≡ false
    → count * size < 2 ^ 64
no_wrap count zero h = omega arith
no_wrap count (suc n) h = omega (arith, le_div count (suc n) (2 ^ 64 - 1) (ground arith))

malloc_rest :
    (h : Heap)
    → h.used ≤ heap_size
    → malloc_early h (heap_size - align h.used) ≡ (
      some (align h.used),
      record {
        used = heap_size;
        last_ptr = some (align h.used);
        last_size = heap_size - align h.used;
        last_old_used = h.used;
      },
    )
unfolding malloc_early
malloc_rest h u = ground arith

module _ {S : Type 0} (lib : Liballoc S) where
  -- `calloc` either gives NULL without a request, or asks `kmalloc` for the product of its
  -- arguments, which does not wrap.
  pub calloc_bytes :
      (k : Kernel S) (count size : ℕ)
      → count < 2 ^ 64
      → size < 2 ^ 64
      → ((2 ^ 64 ≤ count * size) × (calloc lib k count size ≡ returned none k))
        ⊎ ((count * size < 2 ^ 64)
            × (calloc lib k count size ≡ allocated (count * size) (kmalloc lib k (count * size))))
  unfolding calloc
  calloc_bytes k count size hc hs =
      elim (Bool-cases (not (size == 0) && ltb ((2 ^ 64 - 1) / size) count)) [
        | inl big ↦ inl (too_big count size big, rw big)
        | inr small ↦
            let fits = no_wrap count size small in inr (fits, rw (small, mod-eq_of_lt fits))
      ]

  -- With the lock free, `kmalloc_init` hands liballoc the bootstrap heap from the first aligned
  -- offset behind what is used to its end, leaves none of that heap to itself, switches the entry
  -- points to liballoc, and frees the lock and clears the flag again. What is used is assumed to lie in
  -- the heap.
  pub kmalloc_init_region :
      (k : Kernel S)
      → k.locked ≡ false
      → k.bootstrap.used ≤ heap_size
      → (k' : Kernel S) × (kmalloc_init lib k ≡ returned tt k')
        × (pos : ℕ) × (size : ℕ) × (k'.pages ≡ lib.add_region k.pages pos size)
        × (k.bootstrap.used ≤ pos)
        × (pos < k.bootstrap.used + alignment)
        × (pos % alignment ≡ 0)
        × (pos + size ≡ heap_size)
        × (k'.implementation ≡ liballoc)
        × (k'.bootstrap.used ≡ heap_size)
        × (k'.locked ≡ false)
        × (k'.in_progress ≡ false)
  unfolding kmalloc_init
  kmalloc_init_region k h u = (
    leave lib (record k {
      bootstrap = record {
        used = heap_size;
        last_ptr = some (align k.bootstrap.used);
        last_size = heap_size - align k.bootstrap.used;
        last_old_used = k.bootstrap.used;
      };
      pages = lib.add_region k.pages (align k.bootstrap.used) (heap_size - align k.bootstrap.used);
      implementation = liballoc;
    }),
    rw (h, reclaim, malloc_rest k.bootstrap u, hand_over) refl,
    align k.bootstrap.used,
    heap_size - align k.bootstrap.used,
    refl,
    omega arith,
    omega arith,
    omega arith,
    omega arith,
    refl,
    refl,
    refl,
    refl,
  )
