-- ===== src/Config/Grammar/Ending.antt =====
-- src/config.c: how reading a value ends.
use facet_os.Prelude.{
  ℕ, zero, suc, ◌+◌, ◌-◌, ◌*◌, ◌≤◌, ◌<◌, ◌≡◌, ◌⊎◌, refl, inl, inr, true, false, Option, none, some,
  [], ◌∷◌, arith, ltb, leb, Bool-cases, length, length-drop, Bytes,
}
use facet_os.Config.Cursor.{Parsed, current, take_byte}
use facet_os.Config.Cursor.Progress.{Reads, take_byte-left, current-left, skip-left}
use facet_os.Config.Strings.{parse_quoted_string, parse_key}
use facet_os.Config.Integers.{Integer, parse_integer}
use facet_os.Config.Strings.Limits.{IsShort, parse_quoted_string-Reads, parse_key-Reads}
use facet_os.Config.Integers.Progress.{parse_integer-Reads}
use facet_os.Config.Values.{
  Spot, Value, Items, no_items, Entries, no_entries, item_count, entry_total, State, Run, spent,
  failed, done, lexical, spot, skip, taken, is_byte, is_at, expect, consume_entry,
}
use facet_os.Config.Grammar.{
  max_depth, max_array_elements, Shape, quoted, bracket, brace, word_true, word_false, number,
  shape_of, advance, array_append, has_key, table_append, parse_value, parse_shape, parse_array,
  parse_items, parse_inline_table, parse_entries,
}
use facet_os.Config.Grammar.Limits.{
  size, Ends, Ends->>=, lexical-Ends, IsWithin, ItemsFit, EntriesFit, item_count-add, AllWithin-add,
  entry_total-add, EntriesWithin-add, Apart-add,
}

pub is_at-size : (c : ℕ) (s : State) → is_at c s ≡ true → 0 < size s
is_at-size c s h = by_byte (current s.place) h (λ d e. current-left s.place e)
  where
    by_byte : (o : Option ℕ) → is_byte c o ≡ true → ((d : ℕ) → o ≡ some d → 0 < size s) → 0 < size s
    by_byte none h k = cc
    by_byte (some d) h k = k d refl

expect-Ends : (c : ℕ) (s : State) → Ends (λ u s'. size s' < size s) (expect c s)
unfolding expect
expect-Ends c s = elim (Bool-cases (is_at c s)) [
  | inl e ↦ rw e (omega (arith, take_byte-left s.place, is_at-size c s e))
  | inr e ↦ rw e tt
]

array_append-Ends :
    (depth : ℕ) (vs : Items) (v : Value) (s : State)
    → ItemsFit depth vs
    → IsWithin (suc depth) v
    → Ends (λ vs' s'. ItemsFit depth vs' × (size s' ≤ size s)) (array_append vs v s)
unfolding array_append
array_append-Ends depth vs v s h k = elim (Bool-cases (leb max_array_elements (item_count vs))) [
  | inl e ↦ rw e tt
  | inr e ↦
      rw e
        ((ground (arith, item_count-add vs v), AllWithin-add (suc depth) vs v h.1 k), omega arith)
]

table_append-Ends :
    (depth : ℕ) (es : Entries) (k : Bytes) (at : Spot) (v : Value) (s : State)
    → EntriesFit depth es
    → IsShort k
    → IsWithin (suc depth) v
    → Ends (λ es' s'. EntriesFit depth es' × (size s' ≤ size s)) (table_append es k at v s)
unfolding table_append
table_append-Ends depth es k at v s h short w =
    elim (Bool-cases (leb max_array_elements (entry_total es))) [
      | inl e ↦ rw e tt
      | inr e ↦ elim (Bool-cases (has_key k es)) [
        | inl f ↦ rw (e, f) tt
        | inr f ↦
            rw (e, f)
              (
                (
                  ground (arith, entry_total-add es k at v),
                  Apart-add es k at v h.1 f,
                  EntriesWithin-add (suc depth) es k at v h.2 short w,
                ),
                omega arith,
              )
      ]
    ]

pub consume_entry-Ends :
    (at : Spot) (s : State) → Ends (λ u s'. size s' ≤ size s) (consume_entry at s)
unfolding consume_entry
consume_entry-Ends at s = elim (Bool-cases (leb 4096 s.entry_count)) [
  | inl e ↦ rw e tt
  | inr e ↦ rw e (omega arith)
]

-- Only a number is read at the end of the text.
Shape-size : (text : Bytes) → (shape_of text ≡ number) ⊎ (0 < length text)
Shape-size [] = inl refl
Shape-size (c ∷ rest) = inr (omega arith)

advance-size : (n : ℕ) (s : State) → 0 < n → 0 < size s → size (advance n s) < size s
unfolding advance
advance-size n s h k = omega (arith, length-drop n s.place.rest)

abbrev ValueAfter : ℕ → ℕ → Value → State → Type 0
ValueAfter depth n v s = IsWithin depth v × (size s < n)

abbrev ItemsAfter : ℕ → ℕ → Items → State → Type 0
ItemsAfter depth n vs s = ItemsFit depth vs × (size s < n)

abbrev EntriesAfter : ℕ → ℕ → Entries → State → Type 0
EntriesAfter depth n es s = EntriesFit depth es × (size s < n)

in_depth : (depth : ℕ) → ltb max_depth depth ≡ false → depth ≤ max_depth
in_depth depth e = ground arith

ItemsAfter-le :
    (depth m n : ℕ) (m' : Run Items)
    → m ≤ n
    → Ends (ItemsAfter depth m) m'
    → Ends (ItemsAfter depth n) m'
ItemsAfter-le depth m n spent h k = k
ItemsAfter-le depth m n (failed d) h k = tt
ItemsAfter-le depth m n (done vs s) h k = (k.0, omega (arith, k.1))

EntriesAfter-le :
    (depth m n : ℕ) (m' : Run Entries)
    → m ≤ n
    → Ends (EntriesAfter depth m) m'
    → Ends (EntriesAfter depth n) m'
EntriesAfter-le depth m n spent h k = k
EntriesAfter-le depth m n (failed d) h k = tt
EntriesAfter-le depth m n (done vs s) h k = (k.0, omega (arith, k.1))

shorter :
    {n : ℕ} (m : ℕ) (r : Run Unit) → m ≤ n → Ends (λ u s. size s < m) r → Ends (λ u s. size s < n) r
shorter m spent h k = k
shorter m (failed d) h k = tt
shorter m (done u s) h k = omega (arith, h, k)

integer_shorter :
    (o : Parsed Integer) (s : State)
    → Reads (λ i. 0 < size s) (size s - 1) o
    → Ends (λ i s'. size s' < size s) (lexical o s)
integer_shorter (inl d) s h = tt
integer_shorter (inr (i, p)) s h = omega (arith, h.0, h.1)

mutual
  unfolding parse_value IsWithin

  value-Ends :
      (fuel depth : ℕ) (s : State)
      → 4 * size s + 4 ≤ fuel
      → Ends (ValueAfter depth (size s)) (parse_value fuel depth s)
  value-Ends zero depth s h = absurd (omega arith)
  value-Ends (suc fuel) depth s h = elim (Bool-cases (ltb max_depth depth)) [
    | inl e ↦ rw (e, parse_value) tt
    | inr e ↦
        rw (e, parse_value)
          (shape-Ends fuel depth (shape_of s.place.rest) s (in_depth depth e)
            (Shape-size s.place.rest) (omega arith))
  ]

  shape-Ends :
      (fuel depth : ℕ) (sh : Shape) (s : State)
      → depth ≤ max_depth
      → (sh ≡ number) ⊎ (0 < size s)
      → 4 * size s + 3 ≤ fuel
      → Ends (ValueAfter depth (size s)) (parse_shape fuel depth sh s)
  shape-Ends zero depth sh s d k h = absurd (omega arith)
  shape-Ends (suc fuel) depth quoted s d (inl e) h = cc
  shape-Ends (suc fuel) depth bracket s d (inl e) h = cc
  shape-Ends (suc fuel) depth brace s d (inl e) h = cc
  shape-Ends (suc fuel) depth word_true s d (inl e) h = cc
  shape-Ends (suc fuel) depth word_false s d (inl e) h = cc
  shape-Ends (suc fuel) depth number s d k h =
      Ends->>= (λ i s'. size s' < size s) _ (lexical (parse_integer s.place) s) _
        (integer_shorter _ s (parse_integer-Reads s.place)) λ i s' p. (d, p)
  shape-Ends (suc fuel) depth quoted s d (inr k) h =
      Ends->>= (λ t s'. IsShort t × (size s' ≤ size s - 1)) _
        (lexical (parse_quoted_string s.place) s) _
        (lexical-Ends IsShort _ _ s (parse_quoted_string-Reads s.place))
        λ t s' p. ((d, p.0), omega (arith, p.1, k))
  shape-Ends (suc fuel) depth bracket s d (inr k) h =
      Ends->>= (ItemsAfter depth (size s)) _ (parse_array fuel depth s) _
        (array-Ends fuel depth s d k (omega arith)) λ vs s' p. ((d, p.0.0, p.0.1), p.1)
  shape-Ends (suc fuel) depth brace s d (inr k) h =
      Ends->>= (EntriesAfter depth (size s)) _ (parse_inline_table fuel depth s) _
        (table-Ends fuel depth s d k (omega arith)) λ es s' p. ((d, p.0.0, p.0.1, p.0.2), p.1)
  shape-Ends (suc fuel) depth word_true s d (inr k) h = (d, advance-size 4 s (omega arith) k)
  shape-Ends (suc fuel) depth word_false s d (inr k) h = (d, advance-size 5 s (omega arith) k)

  array-Ends :
      (fuel depth : ℕ) (s : State)
      → depth ≤ max_depth
      → 0 < size s
      → 4 * size s + 2 ≤ fuel
      → Ends (ItemsAfter depth (size s)) (parse_array fuel depth s)
  array-Ends zero depth s d k h = absurd (omega arith)
  array-Ends (suc fuel) depth s d k h =
      let s1 = skip true (taken s) in
      let n : size s1 ≤ size s - 1 =
        omega (arith, take_byte-left s.place, skip-left true (take_byte s.place).1) in
      elim (Bool-cases (is_at b']' s1)) [
        | inl e ↦
            rw (e, parse_array) ((omega arith, tt), omega (arith, n, k, take_byte-left s1.place))
        | inr e ↦
            rw (e, parse_array)
              (ItemsAfter-le depth (size s1) (size s) _ (omega (arith, n))
                (items-Ends fuel depth no_items s1 d (omega arith, tt) (omega (arith, n, k, h))))
      ]

  items-Ends :
      (fuel depth : ℕ) (vs : Items) (s : State)
      → depth ≤ max_depth
      → ItemsFit depth vs
      → 4 * size s + 5 ≤ fuel
      → Ends (ItemsAfter depth (size s)) (parse_items fuel depth vs s)
  items-Ends zero depth vs s d k h = absurd (omega arith)
  items-Ends (suc fuel) depth vs s d k h =
      Ends->>= (ValueAfter (suc depth) (size s)) _ (parse_value fuel (suc depth) s) _
        (value-Ends fuel (suc depth) s (omega arith))
        λ v s1 p.
          Ends->>= (λ vs' s2. ItemsFit depth vs' × (size s2 ≤ size s1)) _ (array_append vs v s1) _
            (array_append-Ends depth vs v s1 k p.0)
            λ vs' s2 q.
              let s3 = skip true s2 in
              let n : size s3 < size s = omega (arith, p.1, q.1, skip-left true s2.place) in
              elim (Bool-cases (is_at b']' s3)) [
                | inl e ↦ rw e (q.0, omega (arith, n, take_byte-left s3.place))
                | inr e ↦ rw e (
                    Ends->>= (λ u s4. size s4 < size s3) _ (expect b',' s3) _ (expect-Ends b',' s3)
                      λ u s4 r.
                        let s5 = skip true s4 in
                        let n5 : size s5 < size s = omega (arith, n, r, skip-left true s4.place) in
                        elim (Bool-cases (is_at b']' s5)) [
                          | inl e ↦ rw e (q.0, omega (arith, n5, take_byte-left s5.place))
                          | inr e ↦ rw e (
                              ItemsAfter-le depth (size s5) (size s) _ (omega (arith, n5))
                                (items-Ends fuel depth vs' s5 d q.0 (omega (arith, n5, h))))
                        ])
              ]

  table-Ends :
      (fuel depth : ℕ) (s : State)
      → depth ≤ max_depth
      → 0 < size s
      → 4 * size s + 2 ≤ fuel
      → Ends (EntriesAfter depth (size s)) (parse_inline_table fuel depth s)
  table-Ends zero depth s d k h = absurd (omega arith)
  table-Ends (suc fuel) depth s d k h =
      let s1 = skip false (taken s) in
      let n : size s1 ≤ size s - 1 =
        omega (arith, take_byte-left s.place, skip-left false (take_byte s.place).1) in
      elim (Bool-cases (is_at b'}' s1)) [
        | inl e ↦
            rw (e, parse_inline_table)
              ((omega arith, tt, tt), omega (arith, n, k, take_byte-left s1.place))
        | inr e ↦
            rw (e, parse_inline_table)
              (EntriesAfter-le depth (size s1) (size s) _ (omega (arith, n)) (
                entries-Ends fuel depth no_entries s1 d (omega arith, tt, tt)
                  (omega (arith, n, k, h))))
      ]

  entries-Ends :
      (fuel depth : ℕ) (es : Entries) (s : State)
      → depth ≤ max_depth
      → EntriesFit depth es
      → 4 * size s + 5 ≤ fuel
      → Ends (EntriesAfter depth (size s)) (parse_entries fuel depth es s)
  entries-Ends zero depth es s d k h = absurd (omega arith)
  entries-Ends (suc fuel) depth es s d k h =
      Ends->>= (λ u s1. size s1 ≤ size s) _ (consume_entry (spot s) s) _
        (consume_entry-Ends (spot s) s)
        λ u s1 a.
          Ends->>= (λ t s2. IsShort t × (size s2 ≤ size s1)) _ (lexical (parse_key s1.place) s1) _
            (lexical-Ends IsShort _ _ s1 (parse_key-Reads s1.place))
            λ t s2 b.
              Ends->>= (λ u s3. size s3 < size s) _ (expect b'=' (skip false s2)) _
                (shorter _ _ (omega (arith, a, b.1, skip-left false s2.place))
                  (expect-Ends b'=' (skip false s2)))
                λ u s3 c.
                  let s4 = skip false s3 in
                  let n4 : size s4 < size s = omega (arith, c, skip-left false s3.place) in
                  Ends->>= (ValueAfter (suc depth) (size s4)) _ (parse_value fuel (suc depth) s4) _
                    (value-Ends fuel (suc depth) s4 (omega (arith, n4, h)))
                    λ v s5 p.
                      Ends->>= (λ es' s6. EntriesFit depth es' × (size s6 ≤ size s5)) _
                        (table_append es t (spot s) v s5) _
                        (table_append-Ends depth es t (spot s) v s5 k b.0 p.0)
                        λ es' s6 q.
                          let s7 = skip false s6 in
                          let n7 : size s7 < size s =
                            omega (arith, n4, p.1, q.1, skip-left false s6.place) in
                          elim (Bool-cases (is_at b'}' s7)) [
                            | inl e ↦ rw e (q.0, omega (arith, n7, take_byte-left s7.place))
                            | inr e ↦ rw e (
                                Ends->>= (λ u s8. size s8 < size s7) _ (expect b',' s7) _
                                  (expect-Ends b',' s7)
                                  λ u s8 r.
                                    let s9 = skip false s8 in
                                    let n9 : size s9 < size s =
                                      omega (arith, n7, r, skip-left false s8.place) in
                                    EntriesAfter-le depth (size s9) (size s) _ (omega (arith, n9))
                                      (entries-Ends fuel depth es' s9 d q.0 (omega (arith, n9, h))))
                          ]

-- With four units of fuel for each byte of the text and four more, reading a value ends: it fails,
-- or gives a value and leaves less text than it found. The value and all in it are at depths up to
-- the limit of nesting, counted from the depth of the call, no string or key is longer than the
-- limit, no array or inline table has more elements than the limit, and no inline table has a key
-- twice.
pub parse_value-Ends :
    (fuel depth : ℕ) (s : State)
    → 4 * size s + 4 ≤ fuel
    → Ends (λ v s'. IsWithin depth v × (size s' < size s)) (parse_value fuel depth s)
parse_value-Ends fuel depth s h = value-Ends fuel depth s h
