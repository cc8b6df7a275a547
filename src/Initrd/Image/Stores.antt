-- ===== src/Initrd/Image/Stores.antt =====
-- src/dominit0/initrd.c: what it is for entries to come from an image.
use facet_os.Prelude.{
  ℕ, ◌+◌, ◌^◌, ◌≤◌, ◌<◌, ◌≡◌, refl, ◌≢◌, Bool, true, false, not, ◌||◌, none, some, List, [], ◌∷◌,
  ◌++◌, arith, ◌==◌, if◌then◌else◌, length, Bytes, bytes_equal, bytes_equal_symm,
}
use facet_os.Initrd.Path.{slash}
use facet_os.Initrd.Image.{
  max_entries, Entry, canonical_path, holds_path, bytes_at, made_entry, root, skip_root,
  skip_dot_slash,
}

starts_absolute : Bytes → Bool
starts_absolute [] = false
starts_absolute (c ∷ p) = c == slash

-- The contents of an entry are bytes of the image, as many as its size says, its path is
-- absolute, and its numbers fit their fields.
pub record IsEntry (image : Bytes) (e : Entry) : Type 0 where
  pub offset : ℕ
  pub inside : offset + e.size ≤ length image
  pub content_is : e.content ≡ bytes_at image offset e.size
  pub absolute : (name : Bytes) × (e.path ≡ slash ∷ name)
  pub mode_fits : e.mode < 2 ^ 32
  pub uid_fits : e.uid < 2 ^ 32
  pub gid_fits : e.gid < 2 ^ 32

abbrev pub AllEntries : Bytes → List Entry → Type 0
AllEntries image [] = Unit
AllEntries image (e ∷ es) = IsEntry image e × AllEntries image es

-- no two entries with one path
abbrev pub Distinct : List Entry → Type 0
Distinct [] = Unit
Distinct (e ∷ es) = (holds_path e.path es ≡ false) × Distinct es

pub record IsStore (image : Bytes) (es : List Entry) : Type 0 where
  pub rooted : (rest : List Entry) × (es ≡ root ∷ rest)
  pub few : length es ≤ max_entries
  pub distinct : Distinct es
  pub all_entries : AllEntries image es

holds_path-append :
    (p : Bytes) (es : List Entry) (e : Entry)
    → holds_path p (es ++ e ∷ []) ≡ (holds_path p es || bytes_equal p e.path)
unfolding holds_path
holds_path-append p [] e = ground arith
holds_path-append p (x ∷ es) e = ground (arith, holds_path-append p es e)

pub Distinct-append :
    (es : List Entry) (e : Entry)
    → Distinct es
    → holds_path e.path es ≡ false
    → Distinct (es ++ e ∷ [])
unfolding holds_path
Distinct-append [] e d h = (refl, tt)
Distinct-append (x ∷ es) e d h = (
  rw (holds_path-append x.path es e, d.0, bytes_equal_symm x.path e.path) (ground arith),
  Distinct-append es e d.1 (ground arith),
)

pub AllEntries-append :
    (image : Bytes) (es : List Entry) (e : Entry)
    → AllEntries image es
    → IsEntry image e
    → AllEntries image (es ++ e ∷ [])
AllEntries-append image [] e a i = (i, tt)
AllEntries-append image (x ∷ es) e a i = (a.0, AllEntries-append image es e a.1 i)

pub canonical_path_absolute :
    (name : Bytes) {p : Bytes} → canonical_path name ≡ some p → (rest : Bytes) × (p ≡ slash ∷ rest)
unfolding canonical_path
canonical_path_absolute name {p} h = at _ (skip_root (skip_dot_slash name)) h
  where
    at :
        (b : Bool) (rest : Bytes)
        → (if b then none else some (slash ∷ rest)) ≡ some p
        → (r : Bytes) × (p ≡ slash ∷ r)
    at true rest e = cc
    at false rest e = (rest, cc)

pub made_entry-IsEntry :
    (image path : Bytes) (d size mode uid gid : ℕ)
    → d + size ≤ length image
    → (name : Bytes) × (path ≡ slash ∷ name)
    → IsEntry image (made_entry image path d size mode uid gid)
made_entry-IsEntry image path d size mode uid gid inside absolute = record {
  offset = d;
  inside = inside;
  content_is = refl;
  absolute = absolute;
  mode_fits = omega arith;
  uid_fits = omega arith;
  gid_fits = omega arith;
}

pub not→false : (b : Bool) → not b ≡ true → b ≡ false
not→false true h = cc
not→false false h = refl

pub different : (n m : ℕ) → not (n == m) ≡ true → n ≢ m
different n m h e = ground arith
