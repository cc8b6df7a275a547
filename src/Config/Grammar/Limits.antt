-- ===== src/Config/Grammar/Limits.antt =====
-- src/config.c: the limits on values.
use facet_os.Prelude.{
  ℕ, suc, ◌≤◌, ◌≡◌, refl, ◌∙◌, inl, inr, Bool, true, false, ◌||◌, Bytes, bytes_equal,
  bytes_equal_symm,
}
use facet_os.Config.Cursor.{Parsed}
use facet_os.Config.Cursor.Progress.{left, Reads}
use facet_os.Config.Strings.Limits.{IsShort}
use facet_os.Config.Values.{
  Spot, Value, string_value, integer_value, boolean_value, array_value, table_value_of, Items,
  no_items, item, Entries, no_entries, entry, item_count, entry_total, add_item, add_entry, State,
  Run, spent, failed, done, ◌>>=◌, lexical,
}
use facet_os.Config.Grammar.{max_depth, max_array_elements, has_key}

-- the text left
abbrev pub size : State → ℕ
size s = left s.place

-- the run ends, and a value that it gives has the property
abbrev pub Ends : {A : Type 0} → (A → State → Type 0) → Run A → Type 0
Ends P spent = ⊥
Ends P (failed d) = Unit
Ends P (done a s) = P a s

pub Ends->>= :
    {A B : Type 0} (P : A → State → Type 0) (Q : B → State → Type 0) (m : Run A)
    (f : A → State → Run B)
    → Ends P m
    → ((a : A) (s : State) → P a s → Ends Q (f a s))
    → Ends Q (m >>= f)
Ends->>= P Q spent f h k = h
Ends->>= P Q (failed d) f h k = tt
Ends->>= P Q (done a s) f h k = k a s h

pub lexical-Ends :
    {A : Type 0} (P : A → Type 0) (n : ℕ) (o : Parsed A) (s : State)
    → Reads P n o
    → Ends (λ a s'. P a × (size s' ≤ n)) (lexical o s)
lexical-Ends P n (inl d) s h = tt
lexical-Ends P n (inr (a, p)) s h = h

-- no key stands twice
abbrev Apart : Entries → Type 0
Apart no_entries = Unit
Apart (entry k at v es) = (has_key k es ≡ false) × Apart es

-- A value at a depth within the limit, whose strings, arrays and tables are within theirs, all of
-- whose tables have different keys.
unfoldable mutual
  pub IsWithin : ℕ → Value → Type 0
  IsWithin depth (string_value at t) = (depth ≤ max_depth) × IsShort t
  IsWithin depth (integer_value at i) = depth ≤ max_depth
  IsWithin depth (boolean_value at b) = depth ≤ max_depth
  IsWithin depth (array_value at vs) =
      (depth ≤ max_depth) × (item_count vs ≤ max_array_elements) × AllWithin (suc depth) vs
  IsWithin depth (table_value_of at es) =
      (depth ≤ max_depth)
      × (entry_total es ≤ max_array_elements)
      × Apart es
      × EntriesWithin (suc depth) es

  pub AllWithin : ℕ → Items → Type 0
  AllWithin depth no_items = Unit
  AllWithin depth (item v vs) = IsWithin depth v × AllWithin depth vs

  pub EntriesWithin : ℕ → Entries → Type 0
  EntriesWithin depth no_entries = Unit
  EntriesWithin depth (entry k at v es) = IsShort k × IsWithin depth v × EntriesWithin depth es

abbrev pub ItemsFit : ℕ → Items → Type 0
ItemsFit depth vs = (item_count vs ≤ max_array_elements) × AllWithin (suc depth) vs

abbrev pub EntriesFit : ℕ → Entries → Type 0
EntriesFit depth es =
    (entry_total es ≤ max_array_elements) × Apart es × EntriesWithin (suc depth) es

pub item_count-add : (vs : Items) (w : Value) → item_count (add_item vs w) ≡ suc (item_count vs)
item_count-add no_items w = refl
item_count-add (item v vs) w = rw (item_count-add vs w)

pub AllWithin-add :
    (depth : ℕ) (vs : Items) (w : Value)
    → AllWithin depth vs
    → IsWithin depth w
    → AllWithin depth (add_item vs w)
unfolding IsWithin
AllWithin-add depth no_items w h k = (k, tt)
AllWithin-add depth (item v vs) w h k = (h.0, AllWithin-add depth vs w h.1 k)

pub entry_total-add :
    (es : Entries) (k : Bytes) (at : Spot) (v : Value)
    → entry_total (add_entry es k at v) ≡ suc (entry_total es)
entry_total-add no_entries k at v = refl
entry_total-add (entry k' at' v' es) k at v = rw (entry_total-add es k at v)

pub EntriesWithin-add :
    (depth : ℕ) (es : Entries) (k : Bytes) (at : Spot) (v : Value)
    → EntriesWithin depth es
    → IsShort k
    → IsWithin depth v
    → EntriesWithin depth (add_entry es k at v)
unfolding IsWithin
EntriesWithin-add depth no_entries k at v h short w = (short, w, tt)
EntriesWithin-add depth (entry k' at' v' es) k at v h short w =
    (h.0, h.1, EntriesWithin-add depth es k at v h.2 short w)

neither : (a b : Bool) → (a || b) ≡ false → (a ≡ false) × (b ≡ false)
neither true b h = cc
neither false b h = (refl, h)

has_key-add :
    (es : Entries) (k j : Bytes) (at : Spot) (v : Value)
    → has_key j es ≡ false
    → bytes_equal k j ≡ false
    → has_key j (add_entry es k at v) ≡ false
unfolding has_key
has_key-add no_entries k j at v h e = rw e refl
has_key-add (entry k' at' v' es) k j at v h e =
    let (a, b) = neither (bytes_equal k' j) (has_key j es) h in rw a (has_key-add es k j at v b e)

pub Apart-add :
    (es : Entries) (k : Bytes) (at : Spot) (v : Value)
    → Apart es
    → has_key k es ≡ false
    → Apart (add_entry es k at v)
unfolding has_key
Apart-add no_entries k at v h e = (refl, tt)
Apart-add (entry k' at' v' es) k at v h e =
    let (a, b) = neither (bytes_equal k' k) (has_key k es) e in
    (has_key-add es k k' at v h.0 (bytes_equal_symm k k' ∙ a), Apart-add es k at v h.1 b)
