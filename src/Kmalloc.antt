-- ===== src/Kmalloc.antt =====
-- src/dominit0/kmalloc.c: the bootstrap heap of dominit0, which serves allocations until there
-- are pages, and the entry points over it. A pointer into the heap is its offset, NULL is `none`.
-- Sizes are `size_t`; the heap is so small that no sum below wraps.
pub mod Blocks
pub mod Calls
pub mod Null
mod Tests
use facet_os.Prelude.{
  ℕ, zero, suc, ◌+◌, ◌-◌, ◌*◌, ◌/◌, ◌%◌, ◌^◌, ◌≤◌, ◌<◌, min, max, bit_and, bit_or, bit_xor, ◌≡◌,
  refl, sym, ap, ap₂, ◌∙◌, subst, ◌≢◌, ◌↔◌, ◌⊎◌, inl, inr, Bool, true, false, not, ◌&&◌, ◌||◌,
  Option, none, some, List, [], ◌∷◌, ◌++◌, map, append-nil, append_assoc, arith, ltb, leb, ◌==◌,
  if◌then◌else◌, ltb→lt, lt→ltb, leb→le, ==_iff, tests, Bool-cases, Option-cases, length, get_elem?,
  get_or, set, take, drop, replicate, length-append, length-set, get_elem?-set_self,
  get_elem?-set_ne, take-append-drop, length-take, length-drop, length-replicate, length-map, Bytes,
}
use mathlib.Core.Bool.{false≢true}
use native.Mathlib.Nat.{add-zero}

abbrev pub heap_size : ℕ
heap_size = 90 * 1024 * 1024

-- `sizeof(uintptr_t)`
abbrev pub alignment : ℕ
alignment = 8

-- the statics of the bootstrap heap
pub record Heap : Type 0 where
  pub used : ℕ
  pub last_ptr : Option ℕ
  pub last_size : ℕ
  pub last_old_used : ℕ

-- the statics as the loader leaves them
abbrev pub initial : Heap
initial = record { used = 0; last_ptr = none; last_size = 0; last_old_used = 0 }

-- `(used + KMALLOC_ALIGNMENT - 1) & ~(KMALLOC_ALIGNMENT - 1)`
abbrev pub align : ℕ → ℕ
align used = (used + alignment - 1) / alignment * alignment

abbrev pub same_pointer : Option ℕ → Option ℕ → Bool
same_pointer none none = true
same_pointer (some p) (some q) = p == q
same_pointer _ _ = false

unfoldable pub malloc_early : Heap → ℕ → Option ℕ × Heap
malloc_early h size =
    let pos = align h.used in
    if ltb heap_size pos || ltb (heap_size - pos) size then (none, h) else (
      some pos,
      record { used = pos + size; last_ptr = some pos; last_size = size; last_old_used = h.used },
    )

unfoldable pub free_early : Heap → Option ℕ → Heap
free_early h p =
    if not (same_pointer p h.last_ptr)
    then h
    else record { used = h.last_old_used; last_ptr = none; last_size = 0; last_old_used = 0 }

-- The case of a pointer; `heap_size - pos` does not wrap, since a block lies in the heap.
unfoldable pub realloc_early_at : Heap → ℕ → ℕ → Option ℕ × Heap
unfolding free_early
realloc_early_at h pos size =
    if size == 0
    then (none, free_early h (some pos))
    else if not (same_pointer (some pos) h.last_ptr)
    then (none, h)
    else if ltb (heap_size - pos) size
    then (none, h)
    else (some pos, record h { last_size = size; used = pos + size })

unfoldable pub realloc_early : Heap → Option ℕ → ℕ → Option ℕ × Heap
unfolding malloc_early realloc_early_at
realloc_early h none size = malloc_early h size
realloc_early h (some pos) size = realloc_early_at h pos size
