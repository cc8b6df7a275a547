-- ===== src/Klog/Emit/Laws.antt =====
-- src/dominit0/klog.c: a message, the early buffer and the routes.
use facet_os.Prelude.{
  ℕ, ◌<◌, ◌≡◌, refl, sym, ap, ◌∙◌, subst, inl, inr, Bool, true, false, Option, none, some, List, [],
  ◌∷◌, ◌++◌, append-nil, append_assoc, arith, ◌==◌, Bool-cases, Option-cases, length, length-append,
  Bytes,
}
use facet_os.Prelude.Monad.{◌>>=◌}
use facet_os.Prelude.Monad.{◌>>=◌}
use facet_os.Klog.Format.{Arg, vprintf}
use facet_os.Klog.Store.{Early, early_store, Services}
use facet_os.Klog.Store.Laws.{Holds, early_store-Holds}
use facet_os.Klog.Emit.{
  Route, to_early, Log, Context, buf_size, flush_bytes, emit_flush, emit_char, emit_chars, print,
  configured_level, klog,
}
use facet_os.Klog.Emit.Routes.{Narrowed, Narrowed-refl, Narrowed-trans, deliver_all-Narrowed}

no_length : (xs : Bytes) → length xs ≡ 0 → xs ≡ []
no_length [] h = refl
no_length (x ∷ xs) h = absurd (omega arith)

module _ {S K : Type 0} (services : Services S K) (same_sink : K → K → Bool) where
  -- the log while a message is written: the early buffer and the bytes waiting make up `log`
  record Progress (before : List (Route K)) (log : Bytes) (out : Context × Log S K) : Type 0 where
    early : Early
    is_early : out.1.store ≡ to_early early
    old : Bytes
    stored : Holds early old
    joined : old ++ out.0.buf ≡ log
    waiting : length out.0.buf < buf_size
    narrowed : Narrowed before out.1.routes

  abbrev Flushed : List (Route K) → Bytes → Option (Context × Log S K) → Type 0
  Flushed before log none = ⊥
  Flushed before log (some out) = Progress before log out

  abbrev Emptied : List (Route K) → Bytes → Option (Context × Log S K) → Type 0
  Emptied before log none = ⊥
  Emptied before log (some out) = (out.0.buf ≡ []) × Progress before log out

  emit_flush-Emptied :
      (before : List (Route K)) (log old : Bytes) (ctx : Context) (l : Log S K) (e : Early)
      → l.store ≡ to_early e
      → Holds e old
      → old ++ ctx.buf ≡ log
      → Narrowed before l.routes
      → Emptied before log (emit_flush services same_sink ctx l)
  unfolding emit_flush flush_bytes
  emit_flush-Emptied before log old ctx l e is h j n = elim (Bool-cases (length ctx.buf == 0)) [
    | inl z ↦ rw z (
      no_length ctx.buf (ground arith),
      record {
        early = e;
        is_early = is;
        old = old;
        stored = h;
        joined = j;
        waiting = ground arith;
        narrowed = n;
      },
    )
    | inr z ↦
        rw (z, is)
          (
            refl,
            record {
              early = early_store e ctx.buf;
              is_early = refl;
              old = log;
              stored = subst (Holds (early_store e ctx.buf)) j (early_store-Holds e old ctx.buf h);
              joined = append-nil log;
              waiting = omega arith;
              narrowed = Narrowed-trans before l.routes _ n (
                  deliver_all-Narrowed services same_sink l.outside l.emergency ctx.level ctx.buf
                    l.routes);
            },
          )
  ]

  full-Flushed :
      (before : List (Route K)) (log : Bytes) (o : Option (Context × Log S K))
      → Emptied before log o
      → Flushed before log o
  full-Flushed before log none p = p
  full-Flushed before log (some out) p = p.1

  emit_char-Flushed :
      (before : List (Route K)) (log : Bytes) (out : Context × Log S K) (c : ℕ)
      → Progress before log out
      → Flushed before (log ++ c ∷ []) (emit_char services same_sink out.0 out.1 c)
  unfolding emit_char
  emit_char-Flushed before log out c p =
      elim (Bool-cases (length (out.0.buf ++ c ∷ []) == buf_size)) [
        | inl e ↦ rw e (
            full-Flushed before (log ++ c ∷ []) _ (
              emit_flush-Emptied before (log ++ c ∷ []) p.old
                (record out.0 { buf = out.0.buf ++ c ∷ [] }) out.1 p.early p.is_early p.stored
                joined p.narrowed))
        | inr e ↦ rw e (record {
          early = p.early;
          is_early = p.is_early;
          old = p.old;
          stored = p.stored;
          joined = joined;
          waiting = ground (arith, p.waiting, length-append out.0.buf (c ∷ []));
          narrowed = p.narrowed;
        })
      ]
    where
      joined : p.old ++ (out.0.buf ++ c ∷ []) ≡ log ++ c ∷ []
      joined =
          sym (append_assoc p.old out.0.buf (c ∷ [])) ∙ ap (λ (b : Bytes). b ++ c ∷ []) p.joined

  emit_chars-Flushed :
      (before : List (Route K)) (log : Bytes) (out : Context × Log S K) (cs : Bytes)
      → Progress before log out
      → Flushed before (log ++ cs) (emit_chars services same_sink out.0 out.1 cs)
  unfolding emit_chars
  emit_chars-Flushed before log out [] p = rw (append-nil log) p
  emit_chars-Flushed before log out (c ∷ cs) p =
      go (emit_char services same_sink out.0 out.1 c) (emit_char-Flushed before log out c p)
        (λ out' q. emit_chars-Flushed before (log ++ c ∷ []) out' cs q)
    where
      go :
          (o : Option (Context × Log S K))
          → Flushed before (log ++ c ∷ []) o
          → ((out' : Context × Log S K)
              → Progress before (log ++ c ∷ []) out'
              → Flushed before
                  ((log ++ c ∷ []) ++ cs)
                  (emit_chars services same_sink out'.0 out'.1 cs))
          → Flushed before (log ++ c ∷ cs) (o >>= λ x. emit_chars services same_sink x.0 x.1 cs)
      go none q rest = q
      go (some out') q rest =
          subst
            (λ (log' : Bytes). Flushed before log' (emit_chars services same_sink out'.0 out'.1 cs))
            (append_assoc log (c ∷ []) cs) (rest out' q)

  -- the early buffer, the routes and the flag behind a message
  abbrev pub Kept : List (Route K) → Bytes → Log S K → Type 0
  Kept before log l = (e : Early) × (l.store ≡ to_early e) × Holds e log × Narrowed before l.routes

  print-Kept :
      (level : ℕ) (fmt : Bytes) (args : List Arg) (l : Log S K) (e : Early) (log : Bytes)
      → l.store ≡ to_early e
      → Holds e log
      → (l' : Log S K) × (print services same_sink level fmt args l ≡ some l')
        × Kept l.routes (log ++ vprintf fmt args) l'
  unfolding print
  print-Kept level fmt args l e log is h =
      go (emit_chars services same_sink (record { buf = []; level = level }) l (vprintf fmt args)) (
        emit_chars-Flushed l.routes log (record { buf = []; level = level }, l) (vprintf fmt args)
          (record {
            early = e;
            is_early = is;
            old = log;
            stored = h;
            joined = append-nil log;
            waiting = omega arith;
            narrowed = Narrowed-refl l.routes;
          }))
    where
      last :
          (o : Option (Context × Log S K))
          → Emptied l.routes (log ++ vprintf fmt args) o
          → (l' : Log S K) × ((o >>= λ x. some (x.1)) ≡ some l')
            × Kept l.routes (log ++ vprintf fmt args) l'
      last none p = absurd p
      last (some out) p = (
        out.1,
        refl,
        (
          p.1.early,
          p.1.is_early,
          subst (Holds p.1.early)
              (sym (append-nil p.1.old) ∙ ap (λ (b : Bytes). p.1.old ++ b) (sym p.0) ∙ p.1.joined)
              p.1.stored,
          p.1.narrowed,
        ),
      )

      go :
          (o : Option (Context × Log S K))
          → Flushed l.routes (log ++ vprintf fmt args) o
          → (l' : Log S K) × ((o >>= λ x. emit_flush services same_sink x.0 x.1 >>= λ y. some (y.1))
              ≡ some l')
            × Kept l.routes (log ++ vprintf fmt args) l'
      go none p = absurd p
      go (some out) p = last (emit_flush services same_sink out.0 out.1) (
          emit_flush-Emptied l.routes (log ++ vprintf fmt args) p.old out.0 out.1 p.early p.is_early
            p.stored p.joined p.narrowed)

  configured_level_lem :
      (level : ℕ) → level < 4 → (c : ℕ) × (configured_level services same_sink level ≡ some c)
  unfolding configured_level
  configured_level_lem level h = elim (Option-cases (configured_level services same_sink level)) [
    | inl e ↦ absurd (ground arith)
    | inr (c, e) ↦ (c, e)
  ]

  -- A message at one of the four levels, sent while none is being written and the log goes to the
  -- early buffer: the call returns, the buffer holds what it has to hold of the log so far and the
  -- formatted message behind it, however the sinks fare, no route is enabled again or changed
  -- otherwise, and the flag is clear.
  pub klog-Kept :
      (level : ℕ) (fmt : Bytes) (args : List Arg) (l : Log S K) (e : Early) (log : Bytes)
      → level < 4
      → l.in_progress ≡ false
      → l.store ≡ to_early e
      → Holds e log
      → (l' : Log S K) × (klog services same_sink level fmt args l ≡ some l')
        × Kept l.routes (log ++ vprintf fmt args) l'
        × (l'.in_progress ≡ false)
  unfolding klog
  klog-Kept level fmt args l e log small idle is h =
      let (c, known) = configured_level_lem level small in
      let (l', printed, kept) =
        print-Kept c fmt args (record l { in_progress = true }) e log is h in
      (record l' { in_progress = false }, rw (known, klog, idle, printed), kept, refl)
