-- ===== src/Initrd/Image/Entries.antt =====
-- src/dominit0/initrd.c: the entries of an image.
use facet_os.Prelude.{
  ℕ, zero, suc, ◌+◌, ◌-◌, ◌≤◌, ◌<◌, bit_and, ◌≡◌, refl, ap, subst, ◌≢◌, inl, inr, Bool, true, false,
  not, ◌&&◌, ◌||◌, Option, none, some, List, [], ◌∷◌, ◌++◌, arith, ltb, leb, ◌==◌, if◌then◌else◌,
  leb→le, Bool-cases, length, get_or, take, length-append, Bytes, bytes_equal,
}
use facet_os.Prelude.Monad.{guard, >>=-eq-some, guard-eq-some}
use facet_os.Prelude.Monad.{guard, >>=-eq-some, guard-eq-some}
use facet_os.Initrd.Path.{dot}
use facet_os.Initrd.Image.{
  header_size, max_entries, kind_mask, regular, folder, Entry, hex_field, align4, canonical_path,
  c_string, holds_path, Member, trailer, passed, entry, bytes_at, trailer_name, new_entry,
  has_magic, read_member, Loaded, rejected, loaded, out_of_fuel, read_members, root, create,
}
use facet_os.Initrd.Image.Stores.{
  IsEntry, IsStore, Distinct-append, AllEntries-append, canonical_path_absolute, made_entry-IsEntry,
  not→false, different,
}

-- what the loop needs of a new entry
record Joins (image : Bytes) (es : List Entry) (from : ℕ) (e : Entry) (next : ℕ) : Type 0 where
  is_entry : IsEntry image e
  fresh : holds_path e.path es ≡ false
  room : length es ≢ max_entries
  onward : from ≤ next

-- the offset where the member ends, and an entry with what it needs
abbrev IsMember : Bytes → List Entry → ℕ → Member → Type 0
IsMember image es from trailer = Unit
IsMember image es from (passed next) = from ≤ next
IsMember image es from (entry e next) = Joins image es from e next

abbrev WhenSome : Bytes → List Entry → ℕ → Option Member → Type 0
WhenSome image es from none = Unit
WhenSome image es from (some m) = IsMember image es from m

new_entry-IsMember :
    (image : Bytes) (es : List Entry) (name : Bytes) (d size mode uid gid : ℕ) {m : Member}
    → new_entry image es name d size mode uid gid ≡ some m
    → d + size ≤ length image
    → IsMember image es d m
unfolding new_entry
new_entry-IsMember image es name d size mode uid gid {m} h inside =
    let (_, _, h₁) =
      >>=-eq-some (guard (bit_and mode kind_mask == regular || bit_and mode kind_mask == folder)) _
        h in
    let (_, few, h₂) = >>=-eq-some (guard (not (length es == max_entries))) _ h₁ in
    let (path, named, h₃) = >>=-eq-some (canonical_path name) _ h₂ in
    let (_, fresh, h₄) = >>=-eq-some (guard (not (holds_path path es))) _ h₃ in
    subst (WhenSome image es d) h₄ (record {
      is_entry =
          made_entry-IsEntry image path d size mode uid gid inside
            (canonical_path_absolute name named);
      fresh = not→false _ (guard-eq-some _ fresh);
      room = different _ _ (guard-eq-some _ few);
      onward = omega arith;
    })

Joins-from :
    {image : Bytes} {es : List Entry} (from to : ℕ) {e : Entry} {next : ℕ}
    → from ≤ to
    → Joins image es to e next
    → Joins image es from e next
Joins-from from to h j = record {
  is_entry = j.is_entry;
  fresh = j.fresh;
  room = j.room;
  onward = omega (arith, j.onward);
}

IsMember-from :
    (image : Bytes) (es : List Entry) (from to : ℕ) (m : Member)
    → from ≤ to
    → IsMember image es to m
    → IsMember image es from m
IsMember-from image es from to trailer h i = tt
IsMember-from image es from to (passed next) h i = omega arith
IsMember-from image es from to (entry e next) h i = Joins-from from to h i

ends_inside : (d size total : ℕ) → (leb d total && leb size (total - d)) ≡ true → d + size ≤ total
ends_inside d size total h = ground arith

-- the three ways in which a well-formed header ends
read_tail :
    (image : Bytes) (es : List Entry) (is_trailer is_dot : Bool) (name : Bytes)
    (from d size mode uid gid : ℕ) {m : Member}
    → from ≤ d
    → d + size ≤ length image
    → (if is_trailer
        then some trailer
        else if is_dot
        then some (passed (align4 (d + size)))
        else new_entry image es name d size mode uid gid)
      ≡ some m
    → IsMember image es from m
read_tail image es true b name from d size mode uid gid le inside h =
    subst (WhenSome image es from) h tt
read_tail image es false true name from d size mode uid gid le inside h =
    subst (WhenSome image es from) h (omega arith)
read_tail image es false false name from d size mode uid gid {m} le inside h =
    IsMember-from image es from d m le
      (new_entry-IsMember image es name d size mode uid gid h inside)

read_member-IsMember :
    (image : Bytes) (es : List Entry) (offset : ℕ) {m : Member}
    → read_member image es offset ≡ some m
    → offset + header_size ≤ length image
    → IsMember image es (suc offset) m
unfolding read_member
read_member-IsMember image es offset h fits =
    let (_, _, h₁) = >>=-eq-some (guard (has_magic (bytes_at image offset 6))) _ h in
    let (mode, _, h₂) = >>=-eq-some (hex_field (bytes_at image (offset + 14) 8)) _ h₁ in
    let (uid, _, h₃) = >>=-eq-some (hex_field (bytes_at image (offset + 22) 8)) _ h₂ in
    let (gid, _, h₄) = >>=-eq-some (hex_field (bytes_at image (offset + 30) 8)) _ h₃ in
    let (size, _, h₅) = >>=-eq-some (hex_field (bytes_at image (offset + 54) 8)) _ h₄ in
    let (name_size, _, h₆) = >>=-eq-some (hex_field (bytes_at image (offset + 94) 8)) _ h₅ in
    let (_, filled, h₇) = >>=-eq-some (guard (not (name_size == 0))) _ h₆ in
    let (_, named, h₈) =
      >>=-eq-some (guard (leb name_size (length image - (offset + header_size)))) _ h₇ in
    let name = bytes_at image (offset + header_size) name_size in
    let (_, _, h₉) = >>=-eq-some (guard (get_or name (name_size - 1) 1 == 0)) _ h₈ in
    let d = align4 (offset + header_size + name_size) in
    let (_, placed, h₁₀) =
      >>=-eq-some (guard (leb d (length image) && leb size (length image - d))) _ h₉ in
    read_tail image es (bytes_equal (c_string name) trailer_name)
      (bytes_equal (c_string name) (dot ∷ [])) (take (name_size - 1) name) (suc offset) d size mode
      uid gid (omega arith) (ends_inside d size (length image) (guard-eq-some _ placed)) h₁₀

Joins-IsStore :
    (image : Bytes) (es : List Entry) (from : ℕ) (e : Entry) (next : ℕ)
    → IsStore image es
    → Joins image es from e next
    → IsStore image (es ++ e ∷ [])
Joins-IsStore image es from e next s j = record {
  rooted = (s.rooted.0 ++ e ∷ [], ap (λ (l : List Entry). l ++ e ∷ []) s.rooted.1);
  few = omega (arith, length-append es (e ∷ []), s.few, j.room);
  distinct = Distinct-append es e s.distinct j.fresh;
  all_entries = AllEntries-append image es e s.all_entries j.is_entry;
}

abbrev pub Reads : Bytes → Loaded → Type 0
Reads image rejected = Unit
Reads image (loaded es) = IsStore image es
Reads image out_of_fuel = ⊥

when_some :
    (image : Bytes) (es : List Entry) (offset : ℕ) (o : Option Member)
    → read_member image es offset ≡ o
    → offset + header_size ≤ length image
    → WhenSome image es (suc offset) o
when_some image es offset none e h = tt
when_some image es offset (some m) e h = read_member-IsMember image es offset e h

-- what the loop does with a member, by an induction hypothesis for the rounds that follow
after_member :
    (fuel : ℕ) (image : Bytes) (es : List Entry) (offset : ℕ) (o : Option Member)
    → WhenSome image es (suc offset) o
    → IsStore image es
    → ((es' : List Entry) (next : ℕ)
        → IsStore image es'
        → offset < next
        → Reads image (read_members fuel image es' next))
    → Reads image (elim o [
      | none ↦ rejected
      | some trailer ↦ loaded es
      | some (passed next) ↦ read_members fuel image es next
      | some (entry e next) ↦ read_members fuel image (es ++ e ∷ []) next
    ])
after_member fuel image es offset none w s ih = tt
after_member fuel image es offset (some trailer) w s ih = s
after_member fuel image es offset (some (passed next)) w s ih = ih es next s w
after_member fuel image es offset (some (entry e next)) w s ih =
    ih (es ++ e ∷ []) next (Joins-IsStore image es (suc offset) e next s w) w.onward

read_members-Reads :
    (fuel : ℕ) (image : Bytes) (es : List Entry) (offset : ℕ)
    → IsStore image es
    → length image < offset + fuel
    → 0 < fuel
    → Reads image (read_members fuel image es offset)
unfolding read_members
read_members-Reads zero image es offset s h pos = absurd (omega arith)
read_members-Reads (suc fuel) image es offset s h pos =
    elim (Bool-cases (leb (offset + header_size) (length image))) [
      | inr e ↦ rw (e, read_members) s
      | inl e ↦
          let room = leb→le _ _ e in
          rw (e, read_members)
            (after_member fuel image es offset (read_member image es offset)
              (when_some image es offset (read_member image es offset) refl room) s
              (λ es' next s' lt.
                read_members-Reads fuel image es' next s' (omega arith) (omega arith)))
    ]

root-IsStore : (image : Bytes) → IsStore image (root ∷ [])
unfolding holds_path
root-IsStore image = record {
  rooted = ([], refl);
  few = omega arith;
  distinct = (refl, tt);
  all_entries = (
    record {
      offset = 0;
      inside = omega arith;
      content_is = refl;
      absolute = ([], refl);
      mode_fits = omega arith;
      uid_fits = omega arith;
      gid_fits = omega arith;
    },
    tt,
  );
}

-- Reading an image always ends, and refuses it or gives the root and then entries with distinct
-- absolute paths, at most 1024 in all, whose contents lie in the image.
pub create-Reads : (image : Bytes) → Reads image (create image)
unfolding create
create-Reads image = elim (Bool-cases (ltb (length image) header_size)) [
  | inl e ↦ rw e tt
  | inr e ↦ rw e (
      read_members-Reads (suc (length image)) image (root ∷ []) 0 (root-IsStore image) (omega arith)
        (omega arith))
]
