-- ===== src/Klog/Emit.antt =====
-- src/dominit0/klog.c: a message on its way through the buffer of 128 bytes to the store and the
-- sinks.
pub mod Routes
pub mod Laws
use facet_os.Prelude.{
  ℕ, zero, suc, ◌+◌, ◌-◌, ◌*◌, ◌/◌, ◌%◌, ◌^◌, ◌≤◌, ◌<◌, min, max, bit_and, bit_or, bit_xor, ◌≡◌,
  refl, sym, ap, ap₂, ◌∙◌, subst, ◌≢◌, ◌↔◌, ◌⊎◌, inl, inr, Bool, true, false, not, ◌&&◌, ◌||◌,
  Option, none, some, List, [], ◌∷◌, ◌++◌, map, append-nil, append_assoc, arith, ltb, leb, ◌==◌,
  if◌then◌else◌, ltb→lt, lt→ltb, leb→le, ==_iff, tests, Bool-cases, Option-cases, length, get_elem?,
  get_or, set, take, drop, replicate, length-append, length-set, get_elem?-set_self,
  get_elem?-set_ne, take-append-drop, length-take, length-drop, length-replicate, length-map, Bytes,
  bytes_equal, bytes_equal_iff, bytes_equal_refl, bytes_equal_symm,
}
use mathlib.Core.Bool.{false≢true}
use native.Mathlib.Nat.{add-zero}
use facet_os.Prelude.Monad.{Result, ok, err, ◌>>=◌, ◌>>◌, guard, >>=-eq-some, guard-eq-some}
use facet_os.Klog.Format.{Arg, vprintf}
use facet_os.Klog.Store.{Early, early_store, Prod, prod_store, Services}

-- `KlogRoute`
pub record Route (K : Type 0) : Type 0 where
  pub sink : Option K
  pub maximum_level : ℕ
  pub enabled : Bool

-- What `klog_cur_store_fn` points to, with the statics of the stores: the early buffer stays as it
-- is once the one on the heap is in use.
pub data Store : Type 0 where
  no_store : Store
  to_early : Early → Store
  to_prod : Early → Prod → Store

-- The statics of the log. `outside` is the state of the services.
pub record Log (S K : Type 0) : Type 0 where
  pub outside : S
  pub routes : List (Route K)
  pub emergency : Option K
  pub store : Store
  pub in_progress : Bool

-- `struct klog_emit_ctx`
pub record Context : Type 0 where
  pub buf : Bytes
  pub level : ℕ

abbrev pub buf_size : ℕ
buf_size = 128

-- `klog: configured sink failed; disabling route`
abbrev pub failure : Bytes
failure =
    b'k' ∷ b'l' ∷ b'o' ∷ b'g' ∷ b':' ∷ b' ' ∷ b'c' ∷ b'o' ∷ b'n' ∷ b'f' ∷ b'i' ∷ b'g' ∷ b'u' ∷ b'r'
    ∷ b'e' ∷ b'd' ∷ b' ' ∷ b's' ∷ b'i' ∷ b'n' ∷ b'k' ∷ b' ' ∷ b'f' ∷ b'a' ∷ b'i' ∷ b'l' ∷ b'e'
    ∷ b'd' ∷ b';' ∷ b' ' ∷ b'd' ∷ b'i' ∷ b's' ∷ b'a' ∷ b'b' ∷ b'l' ∷ b'i' ∷ b'n' ∷ b'g' ∷ b' '
    ∷ b'r' ∷ b'o' ∷ b'u' ∷ b't' ∷ b'e' ∷ b'\n' ∷ []

-- The code compares pointers, so the comparison of two sinks is a parameter.
module _ {S K : Type 0} (services : Services S K) (same_sink : K → K → Bool) where
  pub same : Option K → Option K → Bool
  same none none = true
  same (some a) (some b) = same_sink a b
  same _ _ = false

  -- `klog_emit_to_sink`; `true` is `FACET_OK`
  pub emit_to_sink : S → Option K → Bytes → Bool × S
  emit_to_sink s none data' = (false, s)
  emit_to_sink s (some k) data' = services.emit s k data'

  pub emergency_write : S → Option K → Bytes → S
  emergency_write s none data' = s
  emergency_write s (some k) data' = (services.emit s k data').1

  -- the failing branch of the loop over the routes
  pub give_up : S → Option K → Route K → Bytes → S
  unfolding same emergency_write
  give_up s emergency r data' =
      let s' = emergency_write s emergency failure in
      if same r.sink emergency then s' else emergency_write s' emergency data'

  pub after_emit : Option K → Route K → Bytes → Bool × S → S × Route K
  unfolding give_up
  after_emit emergency r data' (true, s) = (s, r)
  after_emit emergency r data' (false, s) =
      (give_up s emergency r data', record r { enabled = false })

  -- one turn of the loop over the routes
  pub deliver : S → Option K → ℕ → Bytes → Route K → S × Route K
  unfolding after_emit emit_to_sink
  deliver s emergency level data' r =
      if not r.enabled || ltb r.maximum_level level
      then (s, r)
      else after_emit emergency r data' (emit_to_sink s r.sink data')

  pub deliver_all : S → Option K → ℕ → Bytes → List (Route K) → S × List (Route K)
  deliver_all s emergency level data' [] = (s, [])
  deliver_all s emergency level data' (r ∷ rs) =
      let (s', r') = deliver s emergency level data' r in
      let (s'', rs') = deliver_all s' emergency level data' rs in (s'', r' ∷ rs')

  -- the call through `klog_cur_store_fn`; `none` is a panic
  pub store_bytes : S → Store → Bytes → Option (S × Store)
  store_bytes s no_store data' = some (s, no_store)
  store_bytes s (to_early e) data' = some (s, to_early (early_store e data'))
  store_bytes s (to_prod e p) data' = do
    (s', p') ← prod_store services s p data'
    some (s', to_prod e p')

  -- `klog_emit_flush` with bytes in the buffer
  pub flush_bytes : ℕ → Bytes → Log S K → Option (Log S K)
  unfolding deliver_all store_bytes
  flush_bytes level data' l = do
    (s, store) ← store_bytes l.outside l.store data'
    let (s', routes) = deliver_all s l.emergency level data' l.routes
    some (record l { outside = s'; routes = routes; store = store })

  -- `klog_emit_flush`: the log behind it, and an empty buffer
  pub emit_flush : Context → Log S K → Option (Context × Log S K)
  unfolding flush_bytes
  emit_flush ctx l =
      if length ctx.buf == 0
      then some (ctx, l)
      else (do l' ← flush_bytes ctx.level ctx.buf l; some (record ctx { buf = [] }, l'))

  pub emit_char : Context → Log S K → ℕ → Option (Context × Log S K)
  unfolding emit_flush
  emit_char ctx l c =
      let ctx' = record ctx { buf = ctx.buf ++ c ∷ [] } in
      if length ctx'.buf == buf_size then emit_flush ctx' l else some (ctx', l)

  -- the calls of `klog_emit_char` that the characters of the message make
  pub emit_chars : Context → Log S K → Bytes → Option (Context × Log S K)
  unfolding emit_char
  emit_chars ctx l [] = some (ctx, l)
  emit_chars ctx l (c ∷ cs) = do (ctx', l') ← emit_char ctx l c; emit_chars ctx' l' cs

  -- the `switch` on `LOG_DEBUG`, `LOG_INFO`, `LOG_WARN` and `LOG_ERROR`
  pub configured_level : ℕ → Option ℕ
  configured_level level =
      if level == 0
      then some 50
      else if level == 1
      then some 40
      else if level == 2
      then some 30
      else if level == 3
      then some 20
      else none

  -- `klog` with a format that is not null, once the level is known
  pub print : ℕ → Bytes → List Arg → Log S K → Option (Log S K)
  unfolding emit_chars emit_flush
  print level fmt args l = do
    (ctx, l₁) ← emit_chars (record { buf = []; level = level }) l (vprintf fmt args)
    (ctx', l₂) ← emit_flush ctx l₁
    some l₂

  -- `klog`: the log behind the call, or `none` for a panic
  pub klog : ℕ → Bytes → List Arg → Log S K → Option (Log S K)
  unfolding print configured_level
  klog level fmt args l = elim (configured_level level) [
    | none ↦ some l
    | some configured ↦ if l.in_progress then some l else (do
      l' ← print configured fmt args (record l { in_progress = true })
      some (record l' { in_progress = false }))
  ]
