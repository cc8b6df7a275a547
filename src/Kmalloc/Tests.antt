-- ===== src/Kmalloc/Tests.antt =====
-- Runs of the bootstrap heap and the entry points, and the laws at them.
use facet_os.Prelude.{
  ℕ, ◌+◌, ◌*◌, ◌%◌, ◌^◌, ◌≤◌, ◌<◌, ◌≡◌, refl, ◌⊎◌, false, none, some, List, [], ◌∷◌, arith,
}
use facet_os.Kmalloc.{heap_size, alignment, Heap, initial, malloc_early, free_early}
use facet_os.Kmalloc.Blocks.{Call, alloc, release, resize, run, Apart, run-Apart}
use facet_os.Kmalloc.Null.{malloc_early-free_null}
use facet_os.Kmalloc.Calls.{
  Liballoc, early, liballoc, Kernel, returned, allocated, kmalloc, kfree, krealloc, calloc,
  kmalloc_init,
}
use facet_os.Kmalloc.Calls.Laws.{Released, calls-Released, calloc_bytes, kmalloc_init_region}

abbrev client : List Call
client = alloc 9 ∷ alloc 4 ∷ resize 0 99 ∷ release 1 ∷ alloc 7 ∷ []

run-Apart_example : Apart heap_size (run (record { heap = initial; held = [] }) client).held
run-Apart_example = run-Apart client

abbrev two_blocks : Heap
two_blocks = record { used = 21; last_ptr = some 16; last_size = 5; last_old_used = 10 }

malloc_early_run : malloc_early (malloc_early initial 10).1 5 ≡ (some 16, two_blocks)
unfolding malloc_early
malloc_early_run = refl

-- a page allocator that serves nothing and counts the bytes it is given
abbrev counting : Liballoc ℕ
counting = record {
  malloc_impl = λ s n. (none, s);
  free_impl = λ s p. s;
  realloc_impl = λ s p n. (none, s);
  add_region = λ s pos size. s + size;
}

abbrev booted : Kernel ℕ
booted = record {
  bootstrap = two_blocks;
  pages = 0;
  implementation = early;
  locked = false;
  in_progress = false;
}

calls-Released_example :
    Released (kmalloc counting booted 100)
    × Released (kfree counting booted (some 16))
    × Released (krealloc counting booted (some 16) 100)
calls-Released_example = calls-Released counting booted (some 16) 100 refl

calloc_bytes_example :
    ((2 ^ 64 ≤ 3 * 8) × (calloc counting booted 3 8 ≡ returned none booted))
    ⊎ ((3 * 8 < 2 ^ 64)
        × (calloc counting booted 3 8 ≡ allocated (3 * 8) (kmalloc counting booted (3 * 8))))
calloc_bytes_example = calloc_bytes counting booted 3 8 (omega arith) (omega arith)

kmalloc_init_region_example :
    (k' : Kernel ℕ) × (kmalloc_init counting booted ≡ returned tt k')
    × (pos : ℕ) × (size : ℕ) × (k'.pages ≡ 0 + size)
    × (21 ≤ pos)
    × (pos < 21 + alignment)
    × (pos % alignment ≡ 0)
    × (pos + size ≡ heap_size)
    × (k'.implementation ≡ liballoc)
    × (k'.bootstrap.used ≡ heap_size)
    × (k'.locked ≡ false)
    × (k'.in_progress ≡ false)
kmalloc_init_region_example = kmalloc_init_region counting booted refl (omega arith)

-- One block of five bytes is held when the second one is freed; so is NULL, and the next block
-- is put where the first one is.
abbrev one_block : Heap
one_block = record { used = 5; last_ptr = some 0; last_size = 5; last_old_used = 0 }

second_block :
    malloc_early one_block 3
    ≡ (some 8, record { used = 11; last_ptr = some 8; last_size = 3; last_old_used = 5 })
unfolding malloc_early
second_block = refl

malloc_early-free_null_example :
    (malloc_early
      (free_early
        (free_early
          (record { used = 11; last_ptr = some 8; last_size = 3; last_old_used = 5 })
          (some 8))
        none)
      4).0
    ≡ some 0
malloc_early-free_null_example =
    malloc_early-free_null one_block
      (record { used = 11; last_ptr = some 8; last_size = 3; last_old_used = 5 }) 3 8 4 second_block
      (omega arith)
