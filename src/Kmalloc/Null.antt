-- ===== src/Kmalloc/Null.antt =====
-- src/dominit0/kmalloc.c: `kfree(NULL)` on the bootstrap heap.
use facet_os.Prelude.{ℕ, ◌≤◌, ◌≡◌, refl, true, none, some, arith}
use facet_os.Kmalloc.{heap_size, Heap, same_pointer, malloc_early, free_early}

same_pointer_self : (p : ℕ) → same_pointer (some p) (some p) ≡ true
same_pointer_self p = ground arith

free_newest :
    (h : Heap) (p : ℕ)
    → h.last_ptr ≡ some p
    → ((free_early h (some p)).last_ptr ≡ none) × ((free_early h (some p)).last_old_used ≡ 0)
unfolding free_early
free_newest h p e =
    (rw (free_early, e, same_pointer_self p), rw (free_early, e, same_pointer_self p))

free_null :
    (h : Heap)
    → h.last_ptr ≡ none
    → h.last_old_used ≡ 0
    → free_early h none ≡ record { used = 0; last_ptr = none; last_size = 0; last_old_used = 0 }
unfolding free_early
free_null h e z = rw (free_early, e, z)

-- A heap that hands out a block, gets it back and is then asked to free NULL starts over: the next
-- block of at most the heap's size is at its first byte, whatever other blocks are held.
pub malloc_early-free_null :
    (h h' : Heap) (size p next : ℕ)
    → malloc_early h size ≡ (some p, h')
    → next ≤ heap_size
    → (malloc_early (free_early (free_early h' (some p)) none) next).0 ≡ some 0
malloc_early-free_null h h' size p next e fits = rw (rewound, start) refl
  where
    newest : h'.last_ptr ≡ some p
    newest = unfold malloc_early in ground (arith, e)

    rewound :
        free_early (free_early h' (some p)) none
        ≡ record { used = 0; last_ptr = none; last_size = 0; last_old_used = 0 }
    rewound =
        free_null (free_early h' (some p)) (free_newest h' p newest).0 (free_newest h' p newest).1

    start :
        malloc_early (record { used = 0; last_ptr = none; last_size = 0; last_old_used = 0 }) next
        ≡ (some 0, record { used = next; last_ptr = some 0; last_size = next; last_old_used = 0 })
    start = unfold malloc_early in ground arith
