-- ===== src/Config/Lines/Ending.antt =====
-- src/config.c: the end of the loop over the lines.
use facet_os.Prelude.{
  ℕ, zero, suc, ◌≤◌, ◌<◌, inl, inr, Bool, true, false, not, ◌&&◌, ◌||◌, arith, if◌then◌else◌,
  Bool-cases, Option-cases, bytes_equal, codes,
}
use facet_os.Config.Cursor.{syntax, schema, current}
use facet_os.Config.Cursor.Progress.{take_byte-left, skip-left}
use facet_os.Config.Strings.{parse_key}
use facet_os.Config.Strings.Limits.{IsShort, parse_key-Reads}
use facet_os.Config.Values.{
  Spot, State, done, lexical, spot, refuse_at, refuse, skip, taken, is_at, consume_entry,
}
use facet_os.Config.Grammar.{fuel_for, parse_top_value}
use facet_os.Config.Grammar.Limits.{size, Ends, Ends->>=, lexical-Ends, IsWithin}
use facet_os.Config.Grammar.Ending.{is_at-size, consume_entry-Ends, parse_value-Ends}
use facet_os.Config.Schema.Checks.{Checked, ensure}
use facet_os.Config.Schema.Tables.{Document, open_table, set_key}
use facet_os.Config.Lines.{
  checked, closes, parse_header, apply_value, parse_assignment, ends_line, finish_line, parse_line,
  parse_lines,
}
use facet_os.Config.Schema.Gives.{Gives}
use facet_os.Config.Lines.Sections.{IsSound, open_table-Gives, set_key-Gives}

-- the sound tables, and less text than `n`
abbrev After : ℕ → Document → State → Type 0
After n d s = IsSound d × (size s < n)

checked-Ends :
    {A : Type 0} (P : A → Type 0) (n : ℕ) (c : Checked A) (s : State)
    → Gives P c
    → size s < n
    → Ends (λ a s'. P a × (size s' < n)) (checked c s)
checked-Ends P n (inl d) s h k = tt
checked-Ends P n (inr a) s h k = (h, k)

test-Ends :
    {n : ℕ} (c : Checked Unit) (s : State) → size s < n → Ends (λ u s'. size s' < n) (checked c s)
test-Ends (inl d) s k = tt
test-Ends (inr u) s k = k

taken-size : (s : State) → size (taken s) ≤ size s
taken-size s = omega (arith, take_byte-left s.place)

closes-size : (array : Bool) (s : State) → size (closes array s).1 ≤ size s
unfolding closes
closes-size true s = elim (Bool-cases (is_at b']' s)) [
  | inl e ↦ rw e (omega (arith, taken-size s, taken-size (taken s)))
  | inr e ↦ rw e (taken-size s)
]
closes-size false s = elim (Bool-cases (is_at b']' s)) [
  | inl e ↦ rw e (taken-size s)
  | inr e ↦ rw e (taken-size s)
]

if-size : (test : Bool) (s : State) → size (if test then taken s else s) ≤ size s
if-size true s = taken-size s
if-size false s = omega arith

parse_header-Ends :
    (d : Document) (s : State) → IsSound d → 0 < size s → Ends (After (size s)) (parse_header d s)
unfolding parse_header
parse_header-Ends d s h k =
    let s1 = taken s in
    let array = is_at b'[' s1 in
    let s2 = skip false (if array then taken s1 else s1) in
    let n2 : size s2 < size s = omega (
      arith,
      take_byte-left s.place,
      skip-left false (if array then taken s1 else s1).place,
      if-size array s1,
    ) in
    Ends->>= (λ t s3. IsShort t × (size s3 ≤ size s2)) _ (lexical (parse_key s2.place) s2) _
      (lexical-Ends IsShort _ _ s2 (parse_key-Reads s2.place))
      λ name s3 a.
        let s4 = (closes array (skip false s3)).1 in
        let n4 : size s4 < size s =
          omega (arith, n2, a.1, closes-size array (skip false s3), skip-left false s3.place) in
        let close = ensure (closes array (skip false s3)).0 syntax (spot s2) in
        Ends->>= (λ u s5. size s5 < size s) _ (checked close s4) _ (test-Ends close s4 n4)
          λ u s5 b.
            let first =
              ensure (d.facet_seen || not array && bytes_equal name (codes "facet")) schema
                (spot s2) in
            Ends->>= (λ u s6. size s6 < size s) _ (checked first s5) _ (test-Ends first s5 b)
              λ u s6 c.
                Ends->>= (λ u s7. size s7 ≤ size s6) _ (consume_entry (spot s2) s6) _
                  (consume_entry-Ends (spot s2) s6)
                  λ u s7 e.
                    checked-Ends IsSound (size s) (open_table array name (spot s2) (spot s7) d) s7
                      (open_table-Gives array name (spot s2) (spot s7) d h) (omega (arith, c, e))

equals-Ends :
    (n : ℕ) (at : Spot) (s : State)
    → size s ≤ n
    → Ends (λ u s'. size s' < n) (if is_at b'=' s then done tt (taken s) else refuse_at syntax at)
equals-Ends n at s h = elim (Bool-cases (is_at b'=' s)) [
  | inl e ↦ rw e (omega (arith, is_at-size b'=' s e, take_byte-left s.place))
  | inr e ↦ rw e tt
]

parse_assignment-Ends :
    (d : Document) (s : State) → IsSound d → Ends (After (size s)) (parse_assignment d s)
unfolding parse_assignment parse_top_value apply_value
parse_assignment-Ends d s h =
    Ends->>= (λ t s1. IsShort t × (size s1 ≤ size s)) _ (lexical (parse_key s.place) s) _
      (lexical-Ends IsShort _ _ s (parse_key-Reads s.place))
      λ key s1 a.
        let s2 = skip false s1 in
        Ends->>= (λ u s3. size s3 < size s) _
          (if is_at b'=' s2 then done tt (taken s2) else refuse_at syntax (spot s)) _
          (equals-Ends (size s) (spot s) s2 (omega (arith, a.1, skip-left false s1.place)))
          λ u s3 b.
            let s4 = skip false s3 in
            Ends->>= (λ v s5. IsWithin 0 v × (size s5 < size s4)) _ (parse_top_value s4) _
              (parse_value-Ends (fuel_for s4) 0 s4 (omega arith))
              λ v s5 c.
                Ends->>= (λ u s6. size s6 ≤ size s5) _ (consume_entry (spot s) s5) _
                  (consume_entry-Ends (spot s) s5)
                  λ u s6 e.
                    checked-Ends IsSound (size s) (set_key key (spot s) v d) s6
                      (set_key-Gives key (spot s) v d h)
                      (omega (arith, b, c.1, e, skip-left false s3.place))

parse_line-Ends : (d : Document) (s : State) → IsSound d → Ends (After (size s)) (parse_line d s)
unfolding parse_line
parse_line-Ends d s h = elim (Bool-cases (is_at b'[' s)) [
  | inl e ↦ rw (e, parse_line) (parse_header-Ends d s h (is_at-size b'[' s e))
  | inr e ↦ rw (e, parse_line) (parse_assignment-Ends d s h)
]

finish_line-Ends : (s : State) → Ends (λ u s'. size s' ≤ size s) (finish_line s)
unfolding finish_line
finish_line-Ends s = let s1 = skip false s in by_test s1 (is_at b'#' s1) (skip-left false s.place)
  where
    at_end :
        (s2 : State)
        → size s2 ≤ size s
        → Ends
            (λ u s'. size s' ≤ size s)
            (if ends_line (current s2.place) then done tt s2 else refuse syntax s2)
    at_end s2 h = elim (Bool-cases (ends_line (current s2.place))) [
      | inl e ↦ rw e h
      | inr e ↦ rw e tt
    ]

    by_test :
        (s1 : State) (test : Bool)
        → size s1 ≤ size s
        → Ends
            (λ u s'. size s' ≤ size s)
            (if ends_line (current (if test then skip false s1 else s1).place)
              then done tt (if test then skip false s1 else s1)
              else refuse syntax (if test then skip false s1 else s1))
    by_test s1 true h = at_end (skip false s1) (omega (arith, h, skip-left false s1.place))
    by_test s1 false h = at_end s1 h

-- With a unit of fuel for each byte of the text and one more, the loop over the lines ends, from
-- tables that are sound. When it ends without a failure, the tables are sound again: the section
-- that keys are stored in is an element of its array, and no array of tables is longer than the
-- limit.
pub parse_lines-Ends :
    (fuel : ℕ) (d : Document) (s : State)
    → IsSound d
    → size s < fuel
    → Ends (λ d' s'. IsSound d') (parse_lines fuel d s)
unfolding parse_lines
parse_lines-Ends zero d s h k = absurd (omega arith)
parse_lines-Ends (suc fuel) d s h k = elim (Option-cases (current s.place)) [
  | inl e ↦ rw (e, parse_lines) h
  | inr (c, e) ↦
      rw (e, parse_lines)
        (Ends->>= (After (size s)) _ (parse_line d s) _ (parse_line-Ends d s h) λ d' s1 a.
          Ends->>= (λ u s2. size s2 ≤ size s1) _ (finish_line s1) _ (finish_line-Ends s1)
            λ u s2 b.
              parse_lines-Ends fuel d' (skip true s2) a.0
                (omega (arith, a.1, b, k, skip-left true s2.place)))
]
