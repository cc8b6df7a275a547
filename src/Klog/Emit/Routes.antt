-- ===== src/Klog/Emit/Routes.antt =====
-- src/dominit0/klog.c: the routes behind a delivery.
use facet_os.Prelude.{
  ℕ, ◌≡◌, refl, ◌∙◌, inl, inr, Bool, true, false, not, ◌&&◌, ◌||◌, Option, List, [], ◌∷◌, ltb,
  Bool-cases, Bytes,
}
use mathlib.Core.Bool.{false≢true}
use mathlib.Core.Bool.{false≢true}
use facet_os.Klog.Store.{Services}
use facet_os.Klog.Emit.{Route, after_emit, deliver, deliver_all, emit_to_sink}

-- A route that keeps its sink and its level, and is not enabled again.
abbrev pub SameRoute : {K : Type 0} → Route K → Route K → Type 0
SameRoute r r' =
    (r'.sink ≡ r.sink)
    × (r'.maximum_level ≡ r.maximum_level)
    × ((r.enabled && r'.enabled) ≡ r'.enabled)

abbrev pub Narrowed : {K : Type 0} → List (Route K) → List (Route K) → Type 0
Narrowed [] [] = Unit
Narrowed (r ∷ rs) (r' ∷ rs') = SameRoute r r' × Narrowed rs rs'
Narrowed _ _ = ⊥

and_self : (b : Bool) → (b && b) ≡ b
and_self true = refl
and_self false = refl

and_trans : (a b c : Bool) → (a && b) ≡ b → (b && c) ≡ c → (a && c) ≡ c
and_trans true b c p q = refl
and_trans false true c p q = absurd (false≢true p)
and_trans false false c p q = q

and_false : (b : Bool) → (b && false) ≡ false
and_false true = refl
and_false false = refl

pub Narrowed-refl : {K : Type 0} (rs : List (Route K)) → Narrowed rs rs
Narrowed-refl [] = tt
Narrowed-refl (r ∷ rs) = ((refl, refl, and_self r.enabled), Narrowed-refl rs)

pub Narrowed-trans :
    {K : Type 0} (rs rs' rs'' : List (Route K))
    → Narrowed rs rs'
    → Narrowed rs' rs''
    → Narrowed rs rs''
Narrowed-trans [] [] [] p q = tt
Narrowed-trans [] [] (r'' ∷ rs'') p q = elim q [ ]
Narrowed-trans [] (r' ∷ rs') rs'' p q = elim p [ ]
Narrowed-trans (r ∷ rs) [] rs'' p q = elim p [ ]
Narrowed-trans (r ∷ rs) (r' ∷ rs') [] p q = elim q [ ]
Narrowed-trans (r ∷ rs) (r' ∷ rs') (r'' ∷ rs'') p q = (
  (q.0.0 ∙ p.0.0, q.0.1 ∙ p.0.1, and_trans r.enabled r'.enabled r''.enabled p.0.2 q.0.2),
  Narrowed-trans rs rs' rs'' p.1 q.1,
)

module _ {S K : Type 0} (services : Services S K) (same_sink : K → K → Bool) where
  after_emit-SameRoute :
      (emergency : Option K) (r : Route K) (d : Bytes) (o : Bool × S)
      → SameRoute r (after_emit services same_sink emergency r d o).1
  unfolding after_emit
  after_emit-SameRoute emergency r d (true, s) = (refl, refl, and_self r.enabled)
  after_emit-SameRoute emergency r d (false, s) = (refl, refl, and_false r.enabled)

  deliver-SameRoute :
      (s : S) (emergency : Option K) (level : ℕ) (d : Bytes) (r : Route K)
      → SameRoute r (deliver services same_sink s emergency level d r).1
  unfolding deliver
  deliver-SameRoute s emergency level d r =
      elim (Bool-cases (not r.enabled || ltb r.maximum_level level)) [
        | inl e ↦ rw e (refl, refl, and_self r.enabled)
        | inr e ↦
            rw e (after_emit-SameRoute emergency r d (emit_to_sink services same_sink s r.sink d))
      ]

  pub deliver_all-Narrowed :
      (s : S) (emergency : Option K) (level : ℕ) (d : Bytes) (rs : List (Route K))
      → Narrowed rs (deliver_all services same_sink s emergency level d rs).1
  unfolding deliver_all
  deliver_all-Narrowed s emergency level d [] = tt
  deliver_all-Narrowed s emergency level d (r ∷ rs) = (
    deliver-SameRoute s emergency level d r,
    deliver_all-Narrowed (deliver services same_sink s emergency level d r).0 emergency level d rs,
  )
