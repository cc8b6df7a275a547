-- ===== src/Config/Schema/Gives.antt =====
-- src/config.c: chains of checks, and predicates on what they give.
use facet_os.Prelude.{◌≡◌, refl, subst, inl, inr, Bool, true, false, if◌then◌else◌}
use facet_os.Config.Cursor.{Category}
use facet_os.Config.Values.{Spot}
use facet_os.Config.Schema.Checks.{Checked, ◌>>=◌, ensure}

-- what is given has the property
abbrev pub Gives : {A : Type 0} → (A → Type 0) → Checked A → Type 0
Gives P (inl d) = Unit
Gives P (inr a) = P a

pub Gives->>= :
    {A B : Type 0} (P : A → Type 0) (Q : B → Type 0) (c : Checked A) (f : A → Checked B)
    → Gives P c
    → ((a : A) → P a → Gives Q (f a))
    → Gives Q (c >>= f)
Gives->>= P Q (inl d) f h k = tt
Gives->>= P Q (inr a) f h k = k a h

-- the same without a property of what is between
pub Gives-any :
    {A B : Type 0} (Q : B → Type 0) (c : Checked A) (f : A → Checked B)
    → ((a : A) → Gives Q (f a))
    → Gives Q (c >>= f)
Gives-any Q (inl d) f k = tt
Gives-any Q (inr a) f k = k a

-- behind a test, the test holds
pub Gives-ensure :
    {B : Type 0} (Q : B → Type 0) (test : Bool) (category : Category) (at : Spot)
    (f : Unit → Checked B)
    → (test ≡ true → Gives Q (f tt))
    → Gives Q (ensure test category at >>= f)
Gives-ensure Q true category at f k = k refl
Gives-ensure Q false category at f k = tt

pub if-Gives :
    {A : Type 0} (P : A → Type 0) (test : Bool) (c c' : Checked A)
    → Gives P c
    → Gives P c'
    → Gives P (if test then c else c')
if-Gives P true c c' h k = h
if-Gives P false c c' h k = k

pub Gives-eq : {A : Type 0} (P : A → Type 0) (c : Checked A) {a : A} → Gives P c → c ≡ inr a → P a
Gives-eq P c h e = subst (Gives P) e h

-- behind a check, its value is what it gave
pub Gives-keep :
    {A B : Type 0} (Q : B → Type 0) (c : Checked A) (f : A → Checked B)
    → ((a : A) → c ≡ inr a → Gives Q (f a))
    → Gives Q (c >>= f)
Gives-keep Q (inl d) f k = tt
Gives-keep Q (inr a) f k = k a refl
