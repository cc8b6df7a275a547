-- ===== src/Klog/Store.antt =====
-- src/dominit0/klog.c: what is retained of the log, in the early buffer and in the one on the heap.
pub mod Laws
use facet_os.Prelude.{
  ℕ, zero, suc, ◌+◌, ◌-◌, ◌*◌, ◌/◌, ◌%◌, ◌^◌, ◌≤◌, ◌<◌, min, max, bit_and, bit_or, bit_xor, ◌≡◌,
  refl, sym, ap, ap₂, ◌∙◌, subst, ◌≢◌, ◌↔◌, ◌⊎◌, inl, inr, Bool, true, false, not, ◌&&◌, ◌||◌,
  Option, none, some, List, [], ◌∷◌, ◌++◌, map, append-nil, append_assoc, arith, ltb, leb, ◌==◌,
  if◌then◌else◌, ltb→lt, lt→ltb, leb→le, ==_iff, tests, Bool-cases, Option-cases, length, get_elem?,
  get_or, set, take, drop, replicate, length-append, length-set, get_elem?-set_self,
  get_elem?-set_ne, take-append-drop, length-take, length-drop, length-replicate, length-map, Bytes,
  bytes_equal, bytes_equal_iff, bytes_equal_refl, bytes_equal_symm,
}
use mathlib.Core.Bool.{false≢true}
use native.Mathlib.Nat.{add-zero}
use facet_os.Prelude.Monad.{Result, ok, err, ◌>>=◌, ◌>>◌, guard, >>=-eq-some, guard-eq-some}

abbrev pub early_size : ℕ
early_size = 2 * 1024

-- `klog_early_buf` up to `klog_early_buf_used`, and `klog_early_truncated`
pub record Early : Type 0 where
  pub kept : Bytes
  pub truncated : Bool

-- `klog_early_store_fn`
unfoldable pub early_store : Early → Bytes → Early
early_store e data' =
    let available = early_size - length e.kept in
    if ltb available (length data')
    then record { kept = e.kept ++ take available data'; truncated = true }
    else record { kept = e.kept ++ data'; truncated = e.truncated }

-- `klog_prod_buf` up to `klog_prod_buf_used`, its size, and the index at which the last call put
-- the byte 0.
pub record Prod : Type 0 where
  pub kept : Bytes
  pub size : ℕ
  pub terminator : ℕ

-- The services that the log calls, over their state `S`, for sinks `K`: a sink's `emit`, which
-- may fail, `kmalloc_is_in_progress`, and the allocator, which keeps the bytes of a block that it
-- moves. `none` is a null pointer.
pub record Services (S K : Type 0) : Type 0 where
  pub emit : S → K → Bytes → Bool × S
  pub kmalloc_is_in_progress : S → Bool
  pub krealloc : S → ℕ → Option S
  pub kmalloc : S → ℕ → Option S

-- the writes at the end of `klog_prod_store_fn`
unfoldable pub append_bytes : Prod → Bytes → Prod
append_bytes p data' = record {
  kept = p.kept ++ data';
  size = p.size;
  terminator = length p.kept + length data';
}

module _ {S K : Type 0} (services : Services S K) where
  -- `klog_prod_store_fn`; `none` is `klog_kpanic`, which does not return.
  unfoldable pub prod_store : S → Prod → Bytes → Option (S × Prod)
  unfolding append_bytes
  prod_store s p data' =
      if ltb (p.size - length p.kept) (length data')
      then (if services.kmalloc_is_in_progress s
          then some (s, p)
          else if ltb (2 ^ 64 - 1 - length p.kept - 1) (length data')
          then none
          else (let new_size = length p.kept + length data' + 1 in
              elim (services.krealloc s new_size) [
                | none ↦ none
                | some s' ↦ some (s', append_bytes (record p { size = new_size }) data')
              ]))
      else some (s, append_bytes p data')
