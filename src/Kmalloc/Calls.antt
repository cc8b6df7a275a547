-- ===== src/Kmalloc/Calls.antt =====
-- The entry points of src/dominit0/kmalloc.c over the implementation in use. liballoc, which takes
-- over once there are pages, is a parameter, and so are the messages to the log left out.
pub mod Laws
use facet_os.Prelude.{
  ℕ, zero, suc, ◌+◌, ◌-◌, ◌*◌, ◌/◌, ◌%◌, ◌^◌, ◌≤◌, ◌<◌, min, max, bit_and, bit_or, bit_xor, ◌≡◌,
  refl, sym, ap, ap₂, ◌∙◌, subst, ◌≢◌, ◌↔◌, ◌⊎◌, inl, inr, Bool, true, false, not, ◌&&◌, ◌||◌,
  Option, none, some, List, [], ◌∷◌, ◌++◌, map, append-nil, append_assoc, arith, ltb, leb, ◌==◌,
  if◌then◌else◌, ltb→lt, lt→ltb, leb→le, ==_iff, tests, Bool-cases, Option-cases, length, get_elem?,
  get_or, set, take, drop, replicate, length-append, length-set, get_elem?-set_self,
  get_elem?-set_ne, take-append-drop, length-take, length-drop, length-replicate, length-map, Bytes,
}
use mathlib.Core.Bool.{false≢true}
use native.Mathlib.Nat.{add-zero}
use facet_os.Kmalloc.{heap_size, alignment, align, Heap, malloc_early, free_early, realloc_early}

-- the functions of liballoc that kmalloc.c calls, over the state of liballoc
pub record Liballoc (S : Type 0) : Type 0 where
  pub malloc_impl : S → ℕ → Option ℕ × S
  pub free_impl : S → Option ℕ → S
  pub realloc_impl : S → Option ℕ → ℕ → Option ℕ × S
  pub add_region : S → ℕ → ℕ → S

pub data Implementation : Type 0 where
  early liballoc : Implementation

-- The statics: the heaps, the implementation that the function pointers name, the lock and
-- the flag.
pub record Kernel (S : Type 0) : Type 0 where
  pub bootstrap : Heap
  pub pages : S
  pub implementation : Implementation
  pub locked : Bool
  pub in_progress : Bool

-- How a call ends: it returns, the kernel panics, or it waits for the lock for ever.
pub data Outcome (S : Type 0) (A : Type 0) : Type 0 where
  returned : A → Kernel S → Outcome S A
  panicked : Kernel S → Outcome S A
  waiting : Outcome S A

-- the pointer and the number of bytes behind it
pub allocated : {S : Type 0} → ℕ → Outcome S ℕ → Outcome S (Option (ℕ × ℕ))
allocated bytes (returned p k) = returned (some (p, bytes)) k
allocated bytes (panicked k) = panicked k
allocated bytes waiting = waiting

module _ {S : Type 0} (lib : Liballoc S) where
  pub malloc_by : Implementation → Kernel S → ℕ → Option ℕ × Kernel S
  malloc_by early k size =
      let (p, h) = malloc_early k.bootstrap size in (p, record k { bootstrap = h })
  malloc_by liballoc k size =
      let (p, s) = lib.malloc_impl k.pages size in (p, record k { pages = s })

  pub free_by : Implementation → Kernel S → Option ℕ → Kernel S
  free_by early k p = record k { bootstrap = free_early k.bootstrap p }
  free_by liballoc k p = record k { pages = lib.free_impl k.pages p }

  pub realloc_by : Implementation → Kernel S → Option ℕ → ℕ → Option ℕ × Kernel S
  realloc_by early k p size =
      let (q, h) = realloc_early k.bootstrap p size in (q, record k { bootstrap = h })
  realloc_by liballoc k p size =
      let (q, s) = lib.realloc_impl k.pages p size in (q, record k { pages = s })

  -- `klock_lock` and the flag, and their release
  pub enter : Kernel S → Kernel S
  enter k = record k { locked = true; in_progress = true }

  pub leave : Kernel S → Kernel S
  leave k = record k { locked = false; in_progress = false }

  unfoldable pub kmalloc : Kernel S → ℕ → Outcome S ℕ
  unfolding enter leave malloc_by
  kmalloc k size =
      if k.locked
      then waiting
      else (let (p, k') = malloc_by k.implementation (enter k) size in
          elim p [ none ↦ panicked (leave k') | some q ↦ returned q (leave k') ])

  unfoldable pub kfree : Kernel S → Option ℕ → Outcome S (Unit {0})
  unfolding enter leave free_by
  kfree k p =
      if k.locked then waiting else returned tt (leave (free_by k.implementation (enter k) p))

  unfoldable pub krealloc : Kernel S → Option ℕ → ℕ → Outcome S (Option ℕ)
  unfolding enter leave realloc_by
  krealloc k p size =
      if k.locked
      then waiting
      else (let (q, k') = realloc_by k.implementation (enter k) p size in returned q (leave k'))

  -- `free` of the C library
  unfoldable pub free : Kernel S → Option ℕ → Outcome S (Unit {0})
  unfolding kfree
  free k none = returned tt k
  free k (some p) = kfree k (some p)

  -- `calloc`, without the `memset`: the bytes to clear are behind the pointer.
  unfoldable pub calloc : Kernel S → ℕ → ℕ → Outcome S (Option (ℕ × ℕ))
  calloc k count size =
      if not (size == 0) && ltb ((2 ^ 64 - 1) / size) count
      then returned none k
      else (let bytes = count * size % 2 ^ 64 in allocated bytes (kmalloc k bytes))

  -- `kmalloc_reclaim`: the rest of the bootstrap heap goes to liballoc.
  pub hand_over : Kernel S → ℕ → Option ℕ × Heap → Kernel S
  hand_over k size (none, h) = record k { bootstrap = h }
  hand_over k size (some region, h) = record k {
    bootstrap = h;
    pages = lib.add_region k.pages region size;
  }

  pub reclaim : Kernel S → Kernel S
  unfolding hand_over
  reclaim k =
      let size = heap_size - align k.bootstrap.used in
      hand_over k size (malloc_early k.bootstrap size)

  unfoldable pub kmalloc_init : Kernel S → Outcome S (Unit {0})
  unfolding reclaim enter leave
  kmalloc_init k =
      if k.locked
      then waiting
      else returned tt (leave (record (reclaim (enter k)) { implementation = liballoc }))
