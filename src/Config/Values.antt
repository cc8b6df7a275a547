-- ===== src/Config/Values.antt =====
-- src/config.c: values, and the state of the parser above the lexical level.
use facet_os.Prelude.{
  ℕ, suc, ◌+◌, inl, inr, Bool, false, Option, none, some, ◌==◌, leb, if◌then◌else◌, Bytes,
}
use facet_os.Config.Cursor.{
  Cursor, Category, limit, syntax, Diagnostic, Parsed, current, take_byte, skip_space_and_comments,
}
use facet_os.Config.Integers.{Integer}

-- `line` and `column` of a `Value` or a `ValueEntry`
pub record Spot : Type 0 where
  pub spot_line : ℕ
  pub spot_column : ℕ

-- `Value` and `ValueEntry`: the union as constructors, the arrays as lists in the order of the C
-- arrays.
mutual
  pub data Value : Type 0 where
    string_value : Spot → Bytes → Value
    integer_value : Spot → Integer → Value
    boolean_value : Spot → Bool → Value
    array_value : Spot → Items → Value
    table_value_of : Spot → Entries → Value

  pub data Items : Type 0 where
    no_items : Items
    item : Value → Items → Items

  pub data Entries : Type 0 where
    no_entries : Entries
    entry : Bytes → Spot → Value → Entries → Entries

abbrev pub spot_of : Value → Spot
spot_of (string_value at t) = at
spot_of (integer_value at i) = at
spot_of (boolean_value at b) = at
spot_of (array_value at vs) = at
spot_of (table_value_of at es) = at

abbrev pub item_count : Items → ℕ
item_count no_items = 0
item_count (item v vs) = suc (item_count vs)

abbrev pub entry_total : Entries → ℕ
entry_total no_entries = 0
entry_total (entry k at v es) = suc (entry_total es)

-- the writes behind the last element
abbrev pub add_item : Items → Value → Items
add_item no_items w = item w no_items
add_item (item v vs) w = item v (add_item vs w)

abbrev pub add_entry : Entries → Bytes → Spot → Value → Entries
add_entry no_entries k at v = entry k at v no_entries
add_entry (entry k' at' v' es) k at v = entry k' at' v' (add_entry es k at v)

-- `Parser`: its place, and the entries counted against `FACET_CONFIG_MAX_ENTRIES`
pub record State : Type 0 where
  pub place : Cursor
  pub entry_count : ℕ

-- What a part of the parser does: it fails, or gives a value and the state behind it. `spent` is no
-- outcome of the code: the fuel of the model ran out.
pub data Run (A : Type 0) : Type 0 where
  spent : Run A
  failed : Diagnostic → Run A
  done : A → State → Run A

infixl 5 ◌>>=◌
abbrev pub ◌>>=◌ : {A B : Type 0} → Run A → (A → State → Run B) → Run B
spent >>= f = spent
failed d >>= f = failed d
done a s >>= f = f a s

-- a function of the lexical level, which counts no entry
abbrev pub lexical : {A : Type 0} → Parsed A → State → Run A
lexical (inl d) s = failed d
lexical (inr (a, p)) s = done a (record { place = p; entry_count = s.entry_count })

abbrev pub spot : State → Spot
spot s = record { spot_line = s.place.line; spot_column = s.place.column }

-- `fail_at`
abbrev pub refuse_at : {A : Type 0} → Category → Spot → Run A
refuse_at category at =
    failed (record { category = category; at_line = at.spot_line; at_column = at.spot_column })

-- `fail`
abbrev pub refuse : {A : Type 0} → Category → State → Run A
refuse category s = refuse_at category (spot s)

abbrev pub moved : State → Cursor → State
moved s p = record { place = p; entry_count = s.entry_count }

abbrev pub skip : Bool → State → State
skip allow_newline s = moved s (skip_space_and_comments allow_newline s.place)

-- `take`, its byte not looked at
abbrev pub taken : State → State
taken s = moved s (take_byte s.place).1

-- whether `current` is a byte
abbrev pub is_byte : ℕ → Option ℕ → Bool
is_byte c none = false
is_byte c (some d) = d == c

abbrev pub is_at : ℕ → State → Bool
is_at c s = is_byte c (current s.place)

-- `if (take(parser) != c) return fail(parser, FACET_CONFIG_DIAGNOSTIC_SYNTAX, …)`
unfoldable pub expect : ℕ → State → Run Unit
expect c s = if is_at c s then done tt (taken s) else refuse syntax (taken s)

-- `FACET_CONFIG_MAX_ENTRIES`
abbrev pub max_entries : ℕ
max_entries = 4096

-- `consume_entry`
unfoldable pub consume_entry : Spot → State → Run Unit
consume_entry at s =
    if leb max_entries s.entry_count
    then refuse_at limit at
    else done tt (record { place = s.place; entry_count = s.entry_count + 1 })
