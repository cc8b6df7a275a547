-- ===== src/Config/Schema/Checks.antt =====
-- src/config.c: the checks of a value against the kind that its key asks for.
use facet_os.Prelude.{
  ℕ, ◌^◌, ◌⊎◌, inl, inr, Bool, true, false, not, ◌&&◌, Option, none, some, List, [], ◌∷◌, ltb, ◌==◌,
  Bytes,
}
use facet_os.Config.Cursor.{Category, schema, duplicate, Diagnostic}
use facet_os.Config.Integers.{Integer}
use facet_os.Config.Values.{
  Spot, Value, string_value, integer_value, boolean_value, array_value, table_value_of, Items,
  no_items, item, Entries, spot_of,
}

-- what a function gives that reads no text: a failure or a value
abbrev pub Checked : Type 0 → Type 0
Checked A = Diagnostic ⊎ A

infixl 5 ◌>>=◌
abbrev pub ◌>>=◌ : {A B : Type 0} → Checked A → (A → Checked B) → Checked B
inl d >>= f = inl d
inr a >>= f = f a

-- `fail_at`
abbrev pub fail_at : {A : Type 0} → Category → Spot → Checked A
fail_at category at =
    inl (record { category = category; at_line = at.spot_line; at_column = at.spot_column })

-- a test, and the failure if it does not hold
abbrev pub ensure : Bool → Category → Spot → Checked Unit
ensure true category at = inr tt
ensure false category at = fail_at category at

-- `require_kind` for each of the kinds, with the contents of the value
abbrev pub string_of : Value → Checked Bytes
string_of (string_value at t) = inr t
string_of v = fail_at schema (spot_of v)

abbrev pub boolean_of : Value → Checked Bool
boolean_of (boolean_value at b) = inr b
boolean_of v = fail_at schema (spot_of v)

abbrev pub integer_of : Value → Checked Integer
integer_of (integer_value at i) = inr i
integer_of v = fail_at schema (spot_of v)

abbrev pub items_of : Value → Checked Items
items_of (array_value at vs) = inr vs
items_of v = fail_at schema (spot_of v)

abbrev pub entries_of : Value → Checked Entries
entries_of (table_value_of at es) = inr es
entries_of v = fail_at schema (spot_of v)

-- `value->as.integer < 0`
abbrev pub is_negative : Integer → Bool
is_negative i = i.negative && not (i.magnitude == 0)

-- a number that is not negative; the failure for one that is stands at the spot given
abbrev pub natural_of : Spot → Value → Checked ℕ
natural_of at v =
    integer_of v >>= λ i. ensure (not (is_negative i)) schema at >>= λ u. inr i.magnitude

-- the same, within a `uint32_t`
abbrev pub u32_of : Spot → Value → Checked ℕ
u32_of at v = natural_of at v >>= λ n. ensure (ltb n (2 ^ 32)) schema at >>= λ u. inr n

-- The test of a bit of `_present` and its setting. The model has a field that is `some` once the
-- bit is set; a call that sets the bit and then fails gives no configuration.
abbrev pub field : {A : Type 0} → Option A → Spot → Checked A → Checked (Option A)
field none at c = c >>= λ a. inr (some a)
field (some a) at c = fail_at duplicate at

-- a function over the elements of an array, up to the first failure
abbrev pub each_item : {A : Type 0} → (Value → Checked A) → Items → Checked (List A)
each_item f no_items = inr []
each_item f (item v vs) = f v >>= λ a. each_item f vs >>= λ as'. inr (a ∷ as')
