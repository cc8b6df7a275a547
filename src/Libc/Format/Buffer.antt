-- ===== src/Libc/Format/Buffer.antt =====
-- src/libc/common/format.c: the buffer of `vsnprintf`.
use facet_os.Prelude.{
  ℕ, zero, suc, ◌+◌, ◌-◌, ◌%◌, ◌^◌, ◌≤◌, ◌<◌, ◌≡◌, refl, sym, ap, ◌∙◌, subst, inl, inr, Option,
  none, some, List, [], ◌∷◌, ◌++◌, append-nil, append_assoc, arith, ltb, ◌==◌, if◌then◌else◌,
  ltb→lt, Bool-cases, length, take, length-append, length-take, take_all, take_prefix, Bytes,
}
use facet_os.Libc.Format.{Out, empty_out, append, append_all, Arg, format_text, vsnprintf}

-- what is stored of a text, and how much of it there was
record Appended (size : ℕ) (text : Bytes) (o : Out) : Type 0 where
  first : o.stored ≡ take (size - 1) text
  counted : o.used ≡ length text

append-Appended :
    (size : ℕ) (text : Bytes) (o : Out) (c : ℕ)
    → Appended size text o
    → Appended size (text ++ c ∷ []) (append size o c)
unfolding append
append-Appended size text o c a = record {
  first = elim (Bool-cases (ltb (o.used + 1) size)) [
    | inl e ↦ rw e (
        ap (λ (s : Bytes). s ++ c ∷ []) (a.first ∙ take_all (size - 1) text (room (ltb→lt _ _ e)))
        ∙ sym (
            take_all (size - 1) (text ++ c ∷ [])
              (omega (arith, length-append text (c ∷ []), a.counted, ltb→lt _ _ e))))
    | inr e ↦ rw e (a.first ∙ sym (take_prefix (size - 1) text (c ∷ []) (full (ground (arith, e)))))
  ];
  counted = omega (arith, a.counted, length-append text (c ∷ []));
}
  where
    room : o.used + 1 < size → length text ≤ size - 1
    room h = omega (arith, a.counted)

    full : size ≤ o.used + 1 → size - 1 ≤ length text
    full h = omega (arith, a.counted)

append_all-Appended :
    (size : ℕ) (text more : Bytes) (o : Out)
    → Appended size text o
    → Appended size (text ++ more) (append_all size o more)
unfolding append_all
append_all-Appended size text [] o a = rw (append-nil text) a
append_all-Appended size text (c ∷ more) o a =
    subst (λ (t : Bytes). Appended size t (append_all size (append size o c) more))
      (append_assoc text (c ∷ []) more)
      (append_all-Appended size (text ++ c ∷ []) more (append size o c)
        (append-Appended size text o c a))

terminator_lem :
    (size : ℕ) (text : Bytes)
    → (if size == 0 then none else some (if ltb (length text) size then length text else size - 1))
      ≡ (if size == 0 then none else some (length (take (size - 1) text)))
terminator_lem size text = elim (Bool-cases (size == 0)) [
  | inl e ↦ rw e
  | inr e ↦ rw e (
      ap some (elim (Bool-cases (ltb (length text) size)) [
        | inl l ↦ rw l (omega (arith, length-take (size - 1) text, ltb→lt _ _ l))
        | inr l ↦ rw l (ground (arith, length-take (size - 1) text))
      ]))
]

-- the end of `vsnprintf`, and what it is to give
abbrev finish : ℕ → Out → Bytes × Option ℕ × ℕ
finish size o = (
  o.stored,
  if size == 0 then none else some (if ltb o.used size then o.used else size - 1),
  o.used % 2 ^ 32,
)

abbrev pub printed_text : ℕ → Bytes → Bytes × Option ℕ × ℕ
printed_text size text = (
  take (size - 1) text,
  if size == 0 then none else some (length (take (size - 1) text)),
  length text % 2 ^ 32,
)

printed :
    (size : ℕ) (text : Bytes) (o : Out)
    → Appended size text o
    → finish size o ≡ printed_text size text
printed size text o a = rw (a.first, a.counted, terminator_lem size text)

-- `vsnprintf` stores the first bytes of the formatted text, as many as the buffer has room for
-- with a terminator, puts the terminator right behind them, or nothing at all into a buffer of no
-- bytes, and returns the low 32 bits of the length of the whole text as an `int`.
pub vsnprintf-format_text :
    (size : ℕ) (format : Bytes) (args : List Arg)
    → vsnprintf size format args ≡ printed_text size (format_text format args)
unfolding vsnprintf
vsnprintf-format_text size format args =
    printed size (format_text format args) (append_all size empty_out (format_text format args))
      (append_all-Appended size [] (format_text format args) empty_out empty)
  where
    none_taken : (n : ℕ) → ◌≡◌ {A = Bytes} [] (take n [])
    none_taken zero = refl
    none_taken (suc n) = refl

    empty : Appended size [] empty_out
    empty = record { first = none_taken (size - 1); counted = refl }
