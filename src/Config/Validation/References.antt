-- ===== src/Config/Validation/References.antt =====
-- src/config.c, validate_required: where names in a configuration lead.
use facet_os.Prelude.{
  ℕ, suc, ◌+◌, ◌≡◌, refl, sym, ap, ◌∙◌, subst, inl, inr, Bool, true, false, not, ◌||◌, Option, none,
  some, List, [], ◌∷◌, ◌++◌, arith, get_elem?, ◌==◌, ==_iff, if◌then◌else◌, Option-cases, Bytes,
  bytes_equal, bytes_equal_iff,
}
use facet_os.Config.Cursor.{duplicate, unresolved_reference}
use facet_os.Config.Schema.Checks.{ensure, fail_at}
use facet_os.Config.Schema.Gives.{Gives, Gives-any}
use facet_os.Config.Schema.Records.{SinkDefinition, SeatDefinition, DomainSink, SystemConfig}
use facet_os.Config.Validation.Definitions.{
  nowhere, text_of, list_of, is_empty, put_before, split_at, has_byte, any, find_index,
}
use facet_os.Config.Validation.Terminals.{
  sound_parts, reference_parts, with_seat, in_seat, last_of, find_terminal, resolve_terminal,
}
use facet_os.Config.Validation.Domains.{check_domain_sinks, defines}
use facet_os.Config.Validation.Apart.{Every, Every-add, find_index-get_elem?}

abbrev both : Bytes → Bytes → Option (Bytes × Bytes)
both a b = some (a, b)

abbrev numbers : ℕ → ℕ → Option (ℕ × ℕ)
numbers k m = some (k, m)

split_at-append : (c : ℕ) (t a b : Bytes) → split_at c t ≡ some (a, b) → t ≡ a ++ c ∷ b
split_at-append c [] a b h = cc
split_at-append c (d ∷ t) a b h =
    by_test (d == c) refl (split_at c t) (λ a' b' g. split_at-append c t a' b' g) refl h
  where
    by_test :
        (test : Bool)
        → (d == c) ≡ test
        → (o : Option (Bytes × Bytes))
        → ((a' b' : Bytes) → split_at c t ≡ some (a', b') → t ≡ a' ++ c ∷ b')
        → split_at c t ≡ o
        → (if test then both [] t else put_before d o) ≡ both a b
        → (d ∷ t) ≡ a ++ c ∷ b
    by_test true e o later g h =
        let (x, y) = parts h in
        ap (λ (n : ℕ). n ∷ t) ((==_iff d c).0 e)
        ∙ ap (λ (z : Bytes). c ∷ z) y
        ∙ ap (λ (z : Bytes). z ++ c ∷ b) x
      where
        parts : both [] t ≡ both a b → ([] ≡ a) × (t ≡ b)
        parts k = (cc, cc)
    by_test false e none later g h = cc
    by_test false e (some (before, behind)) later g h =
        let (x, y) = parts h in
        ap (λ (z : Bytes). d ∷ z) (later before behind g)
        ∙ ap (λ (z : Bytes). d ∷ before ++ c ∷ z) y
        ∙ ap (λ (z : Bytes). z ++ c ∷ b) x
      where
        parts : both (d ∷ before) behind ≡ both a b → ((d ∷ before) ≡ a) × (behind ≡ b)
        parts k = (cc, cc)

abbrev pub SinkFound : List SinkDefinition → DomainSink → Type 0
SinkFound sinks s =
    (definition : SinkDefinition) × (get_elem? sinks s.sink_definition_index ≡ some definition)
    × (s.name ≡ text_of definition.name)

pub check_domain_sinks-found :
    (sinks : List SinkDefinition) (before xs : List DomainSink)
    → Every (SinkFound sinks) before
    → Gives (Every (SinkFound sinks)) (check_domain_sinks sinks before xs)
unfolding check_domain_sinks
check_domain_sinks-found sinks before [] h = h
check_domain_sinks-found sinks before (x ∷ xs) h =
    elim (Option-cases (find_index (defines x.name) sinks)) [
      | inl e ↦ rw (e, check_domain_sinks) tt
      | inr (k, e) ↦
          let (definition, at, same) = find_index-get_elem? (defines x.name) sinks k e in
          rw (e, check_domain_sinks)
            (Gives-any _
              (ensure (not (any (λ (y : DomainSink). bytes_equal x.name y.name) before)) duplicate
                nowhere)
              _
              λ u.
                check_domain_sinks-found sinks
                  (before ++ record x { sink_definition_index = k } ∷ []) xs
                  (Every-add (SinkFound sinks) before _ h
                    (definition, at, (bytes_equal_iff x.name (text_of definition.name)).0 same)))
    ]

-- a terminal of a seat, under its name
abbrev pub TerminalAt : List SeatDefinition → Bytes → ℕ × ℕ → Type 0
TerminalAt seats reference (k, m) =
    (seat : SeatDefinition) × (terminal : Bytes) × (get_elem? seats k ≡ some seat)
    × (get_elem? (list_of seat.terminals) m ≡ some terminal)
    × (reference ≡ text_of seat.name ++ b'.' ∷ terminal)

abbrev FoundFrom : ℕ → List SeatDefinition → Bytes → Bytes → ℕ × ℕ → Type 0
FoundFrom k seats name terminal (k', m) =
    (i : ℕ) × (seat : SeatDefinition) × (k' ≡ k + i)
    × (get_elem? seats i ≡ some seat)
    × (text_of seat.name ≡ name)
    × (get_elem? (list_of seat.terminals) m ≡ some terminal)

in_seat-found :
    (k : ℕ) (x : SeatDefinition) (name terminal : Bytes) (k' m : ℕ)
    → in_seat k x name terminal ≡ some (k', m)
    → (k' ≡ k) × (text_of x.name ≡ name) × (get_elem? (list_of x.terminals) m ≡ some terminal)
in_seat-found k x name terminal k' m h =
    by_name (bytes_equal (text_of x.name) name) refl
      (find_index (bytes_equal terminal) (list_of x.terminals)) refl h
  where
    by_name :
        (b : Bool)
        → bytes_equal (text_of x.name) name ≡ b
        → (o : Option ℕ) → find_index (bytes_equal terminal) (list_of x.terminals) ≡ o
        → (if b then with_seat k o else none) ≡ some (k', m)
        → (k' ≡ k) × (text_of x.name ≡ name) × (get_elem? (list_of x.terminals) m ≡ some terminal)
    by_name false e o g h = cc
    by_name true e none g h = cc
    by_name true e (some n) g h =
        let (t, at, same) = find_index-get_elem? (bytes_equal terminal) (list_of x.terminals) n g in
        (
          number h,
          (bytes_equal_iff (text_of x.name) name).0 e,
          subst (λ (i : ℕ). get_elem? (list_of x.terminals) i ≡ some terminal) (index h)
              (at ∙ ap some (sym ((bytes_equal_iff terminal t).0 same))),
        )
      where
        number : numbers k n ≡ numbers k' m → k' ≡ k
        number h = cc

        index : numbers k n ≡ numbers k' m → n ≡ m
        index h = cc

find_terminal-found :
    (k : ℕ) (seats : List SeatDefinition) (name terminal : Bytes) (k' m : ℕ)
    → find_terminal k seats name terminal ≡ some (k', m)
    → FoundFrom k seats name terminal (k', m)
find_terminal-found k [] name terminal k' m h = cc
find_terminal-found k (x ∷ xs) name terminal k' m h =
    by_later (find_terminal (k + 1) xs name terminal)
      (λ g. find_terminal-found (k + 1) xs name terminal k' m g) h
  where
    by_later :
        (o : Option (ℕ × ℕ))
        → (o ≡ some (k', m) → FoundFrom (k + 1) xs name terminal (k', m))
        → last_of (in_seat k x name terminal) o ≡ some (k', m)
        → FoundFrom k (x ∷ xs) name terminal (k', m)
    by_later (some found) later h =
        let (i, seat, e, at, named', t) = later h in (suc i, seat, omega (arith, e), at, named', t)
    by_later none later h =
        let (e, named', t) = in_seat-found k x name terminal k' m h in
        (0, x, omega (arith, e), refl, named', t)

reference_parts-append : (t a b : Bytes) → reference_parts t ≡ some (a, b) → t ≡ a ++ b'.' ∷ b
reference_parts-append t a b h =
    by_split (split_at b'.' t) (λ a' b' g. split_at-append b'.' t a' b' g) h
  where
    by_split :
        (o : Option (Bytes × Bytes))
        → ((a' b' : Bytes) → o ≡ some (a', b') → t ≡ a' ++ b'.' ∷ b')
        → sound_parts o ≡ both a b
        → t ≡ a ++ b'.' ∷ b
    by_split none k h = cc
    by_split (some (x, y)) k h = by_test (is_empty x || is_empty y || has_byte b'.' y) h
      where
        by_test : (b' : Bool) → (if b' then none else both x y) ≡ both a b → t ≡ a ++ b'.' ∷ b
        by_test true h = cc
        by_test false h = k a b h

pub resolve_terminal-found :
    (c : SystemConfig) (t : Bytes)
    → Gives (TerminalAt c.seats t) (resolve_terminal c (reference_parts t))
resolve_terminal-found c t = by_parts (reference_parts t) (λ a b e. reference_parts-append t a b e)
  where
    by_parts :
        (o : Option (Bytes × Bytes))
        → ((a b : Bytes) → o ≡ some (a, b) → t ≡ a ++ b'.' ∷ b)
        → Gives (TerminalAt c.seats t) (resolve_terminal c o)
    by_parts none k = tt
    by_parts (some (a, b)) k =
        by_place (find_terminal 0 c.seats a b) (λ k' m e. find_terminal-found 0 c.seats a b k' m e)
      where
        by_place :
            (o : Option (ℕ × ℕ))
            → ((k' m : ℕ) → o ≡ some (k', m) → FoundFrom 0 c.seats a b (k', m))
            → Gives
                (TerminalAt c.seats t)
                (elim o [ none ↦ fail_at unresolved_reference nowhere | some place ↦ inr place ])
        by_place none f = tt
        by_place (some (k', m)) f =
            let (i, seat, e, at, named', found) = f k' m refl in
            let e' : k' ≡ i = omega (arith, e) in
            (
              seat,
              b,
              subst (λ (n : ℕ). get_elem? c.seats n ≡ some seat) (sym e') at,
              found,
              k a b refl ∙ ap (λ (n : Bytes). n ++ b'.' ∷ b) (sym named'),
            )
