-- ===== src/Config/Grammar.antt =====
-- src/config.c: arrays, inline tables and values.
pub mod Limits
pub mod Ending
use facet_os.Prelude.{
  ℕ, zero, suc, ◌+◌, ◌*◌, Bool, true, false, ◌&&◌, ◌||◌, [], ◌∷◌, ltb, leb, ◌==◌, if◌then◌else◌,
  length, take, drop, Bytes, bytes_equal,
}
use facet_os.Config.Cursor.{Cursor, limit, duplicate, syntax}
use facet_os.Config.Strings.{parse_quoted_string, parse_key}
use facet_os.Config.Integers.{parse_integer}
use facet_os.Config.Values.{
  Spot, Value, string_value, integer_value, boolean_value, array_value, table_value_of, Items,
  no_items, Entries, no_entries, entry, item_count, entry_total, add_item, add_entry, State, Run,
  spent, failed, done, ◌>>=◌, lexical, spot, refuse_at, refuse, moved, skip, taken, is_at, expect,
  consume_entry,
}

-- `FACET_CONFIG_MAX_DEPTH` and `FACET_CONFIG_MAX_ARRAY_ELEMENTS`
abbrev pub max_depth : ℕ
max_depth = 16

abbrev pub max_array_elements : ℕ
max_array_elements = 4096

-- the tests of `parse_value` on the text at its place, in their order
pub data Shape : Type 0 where
  quoted bracket brace word_true word_false number : Shape

abbrev pub true_text : Bytes
true_text = b't' ∷ b'r' ∷ b'u' ∷ b'e' ∷ []

abbrev pub false_text : Bytes
false_text = b'f' ∷ b'a' ∷ b'l' ∷ b's' ∷ b'e' ∷ []

-- `size - offset >= n && memcmp(data + offset, word, n) == 0`
unfoldable pub begins_with : Bytes → Bytes → Bool
begins_with text word =
    leb (length word) (length text) && bytes_equal (take (length word) text) word

abbrev pub shape_of : Bytes → Shape
shape_of [] = number
shape_of (c ∷ rest) =
    if c == b'"' || c == b'\''
    then quoted
    else if c == b'['
    then bracket
    else if c == b'{'
    then brace
    else if begins_with (c ∷ rest) true_text
    then word_true
    else if begins_with (c ∷ rest) false_text
    then word_false
    else number

-- `offset += n; column += n`
unfoldable pub advance : ℕ → State → State
advance n s =
    moved s
      (record { rest = drop n s.place.rest; line = s.place.line; column = s.place.column + n })

-- the tests of `array_append`
unfoldable pub array_append : Items → Value → State → Run Items
array_append vs v s =
    if leb max_array_elements (item_count vs) then refuse limit s else done (add_item vs v) s

unfoldable pub has_key : Bytes → Entries → Bool
has_key k no_entries = false
has_key k (entry k' at v es) = bytes_equal k' k || has_key k es

-- `table_append`
unfoldable pub table_append : Entries → Bytes → Spot → Value → State → Run Entries
unfolding has_key
table_append es k at v s =
    if leb max_array_elements (entry_total es)
    then refuse limit s
    else if has_key k es
    then refuse_at duplicate at
    else done (add_entry es k at v) s

-- `parse_value` with its branches, the loops of `parse_array` and of `parse_inline_table`, and those functions. Each
-- call is on one unit of fuel less.
unfoldable mutual
  unfolding expect consume_entry begins_with advance array_append table_append

  pub parse_value : ℕ → ℕ → State → Run Value
  parse_value zero depth s = spent
  parse_value (suc fuel) depth s = elim (ltb max_depth depth) [
    | true ↦ refuse limit s
    | false ↦ parse_shape fuel depth (shape_of s.place.rest) s
  ]

  pub parse_shape : ℕ → ℕ → Shape → State → Run Value
  parse_shape zero depth sh s = spent
  parse_shape (suc fuel) depth quoted s =
      lexical (parse_quoted_string s.place) s >>= λ t s'. done (string_value (spot s) t) s'
  parse_shape (suc fuel) depth bracket s =
      parse_array fuel depth s >>= λ vs s'. done (array_value (spot s) vs) s'
  parse_shape (suc fuel) depth brace s =
      parse_inline_table fuel depth s >>= λ es s'. done (table_value_of (spot s) es) s'
  parse_shape (suc fuel) depth word_true s = done (boolean_value (spot s) true) (advance 4 s)
  parse_shape (suc fuel) depth word_false s = done (boolean_value (spot s) false) (advance 5 s)
  parse_shape (suc fuel) depth number s =
      lexical (parse_integer s.place) s >>= λ i s'. done (integer_value (spot s) i) s'

  pub parse_array : ℕ → ℕ → State → Run Items
  parse_array zero depth s = spent
  parse_array (suc fuel) depth s =
      let s1 = skip true (taken s) in
      elim (is_at b']' s1) [
        | true ↦ done no_items (taken s1)
        | false ↦ parse_items fuel depth no_items s1
      ]

  pub parse_items : ℕ → ℕ → Items → State → Run Items
  parse_items zero depth vs s = spent
  parse_items (suc fuel) depth vs s = parse_value fuel (suc depth) s >>= λ v s1.
      array_append vs v s1 >>= λ vs' s2.
      let s3 = skip true s2 in
      elim (is_at b']' s3) [
        | true ↦ done vs' (taken s3)
        | false ↦ expect b',' s3 >>= λ u s4.
            let s5 = skip true s4 in
            elim (is_at b']' s5) [
              | true ↦ done vs' (taken s5)
              | false ↦ parse_items fuel depth vs' s5
            ]
      ]

  pub parse_inline_table : ℕ → ℕ → State → Run Entries
  parse_inline_table zero depth s = spent
  parse_inline_table (suc fuel) depth s =
      let s1 = skip false (taken s) in
      elim (is_at b'}' s1) [
        | true ↦ done no_entries (taken s1)
        | false ↦ parse_entries fuel depth no_entries s1
      ]

  pub parse_entries : ℕ → ℕ → Entries → State → Run Entries
  parse_entries zero depth es s = spent
  parse_entries (suc fuel) depth es s = consume_entry (spot s) s >>= λ u s1.
      lexical (parse_key s1.place) s1 >>= λ k s2. expect b'=' (skip false s2) >>= λ u s3.
      parse_value fuel (suc depth) (skip false s3) >>= λ v s4.
      table_append es k (spot s) v s4 >>= λ es' s5.
      let s6 = skip false s5 in
      elim (is_at b'}' s6) [
        | true ↦ done es' (taken s6)
        | false ↦ expect b',' s6 >>= λ u s7. parse_entries fuel depth es' (skip false s7)
      ]

-- fuel that is always enough
abbrev pub fuel_for : State → ℕ
fuel_for s = 4 * length s.place.rest + 4

-- `parse_value(parser, &value, 0)`
unfoldable pub parse_top_value : State → Run Value
parse_top_value s = parse_value (fuel_for s) 0 s
