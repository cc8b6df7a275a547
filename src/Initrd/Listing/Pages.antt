-- ===== src/Initrd/Listing/Pages.antt =====
-- src/dominit0/initrd.c: a page of `directory_list`, as a part of the directory.
use facet_os.Prelude.{
  ℕ, zero, suc, ◌+◌, ◌-◌, ◌≤◌, ◌<◌, ◌≡◌, refl, ap, inl, inr, Bool, true, false, Option, none, some,
  List, [], ◌∷◌, arith, ltb, leb, ◌==◌, if◌then◌else◌, Bool-cases, length, take, drop, Bytes,
}
use facet_os.Prelude.Monad.{ok, err}
use facet_os.Prelude.Monad.{invalid_argument}
use facet_os.Initrd.Image.{Entry}
use facet_os.Initrd.Listing.{immediate_child, Item, add, list_from, directory_list}

-- all that a directory holds, in the order of the image
abbrev pub children : Bytes → List Entry → List Item
children directory [] = []
children directory (e ∷ es) = elim (immediate_child directory e.path) [
  | none ↦ children directory es
  | some name ↦ (name, e.directory) ∷ children directory es
]

abbrev page : ℕ → ℕ → List Item → List Item × Bool
page skip room items = (take room (drop skip items), leb (length items) (skip + room))

page-cons_skip :
    (item : Item) (items : List Item) (skip room : ℕ)
    → 0 < skip
    → page skip room (item ∷ items) ≡ page (skip - 1) room items
page-cons_skip item items zero room h = absurd (omega arith)
page-cons_skip item items (suc skip) room h =
    let e : suc skip - 1 ≡ skip = omega arith in
    rw e (ap (λ b. (take room (drop skip items), b)) (ground arith))

page-cons_full :
    (item : Item) (items : List Item) (skip room : ℕ)
    → skip ≡ 0
    → room ≡ 0
    → page skip room (item ∷ items) ≡ ([], false)
page-cons_full item items skip room h k = rw (h, k) (ap (λ b. ([], b)) (ground arith))

page-cons_add :
    (item : Item) (items : List Item) (skip room : ℕ)
    → skip ≡ 0
    → 0 < room
    → page skip room (item ∷ items) ≡ add item (page 0 (room - 1) items)
page-cons_add item items skip zero h k = absurd (omega arith)
page-cons_add item items skip (suc room) h k =
    let e : suc room - 1 ≡ room = omega arith in
    rw (h, e) (ap (λ b. (item ∷ take room items, b)) (ground arith))

page_nil : (skip room : ℕ) → ◌≡◌ {A = List Item × Bool} ([], true) (page skip room [])
page_nil zero zero = ap (λ b. ([], b)) (ground arith)
page_nil zero (suc room) = ap (λ b. ([], b)) (ground arith)
page_nil (suc skip) zero = ap (λ b. ([], b)) (ground arith)
page_nil (suc skip) (suc room) = ap (λ b. ([], b)) (ground arith)

list_from-page :
    (directory : Bytes) (cursor maximum seen count : ℕ) (es : List Entry)
    → count ≤ maximum
    → list_from directory cursor maximum seen count es
      ≡ page (cursor - seen) (maximum - count) (children directory es)
unfolding list_from
list_from-page directory cursor maximum seen count [] h = page_nil (cursor - seen) (maximum - count)
list_from-page directory cursor maximum seen count (e ∷ es) h =
    at (immediate_child directory e.path) (list_from-page directory cursor maximum seen count es h)
      (list_from-page directory cursor maximum (seen + 1) count es h)
      (λ more. list_from-page directory cursor maximum (seen + 1) (count + 1) es more)
  where
    kids : List Item
    kids = children directory es

    at :
        (o : Option Bytes)
        → list_from directory cursor maximum seen count es
          ≡ page (cursor - seen) (maximum - count) kids
        → list_from directory cursor maximum (seen + 1) count es
          ≡ page (cursor - (seen + 1)) (maximum - count) kids
        → (count + 1 ≤ maximum
            → list_from directory cursor maximum (seen + 1) (count + 1) es
              ≡ page (cursor - (seen + 1)) (maximum - (count + 1)) kids)
        → elim o [
          | none ↦ list_from directory cursor maximum seen count es
          | some name ↦ elim (ltb seen cursor) [
            | true ↦ list_from directory cursor maximum (seen + 1) count es
            | false ↦ elim (count == maximum) [
              | true ↦ ([], false)
              | false ↦
                  add
                    (name, e.directory)
                    (list_from directory cursor maximum (seen + 1) (count + 1) es)
            ]
          ]
        ]
          ≡ page
              (cursor - seen)
              (maximum - count)
              (elim o [ none ↦ kids | some name ↦ (name, e.directory) ∷ kids ])
    at none same passed added = same
    at (some name) same passed added = elim (Bool-cases (ltb seen cursor)) [
      | inl e₁ ↦
          let shift : cursor - (seen + 1) ≡ cursor - seen - 1 = omega arith in
          rw
            (
              e₁,
              page-cons_skip (name, e.directory) kids (cursor - seen) (maximum - count)
                  (ground arith),
              ← shift,
            )
            passed
      | inr e₁ ↦ elim (Bool-cases (count == maximum)) [
        | inl e₂ ↦ rw (
          e₁,
          e₂,
          page-cons_full (name, e.directory) kids (cursor - seen) (maximum - count) (ground arith)
              (ground arith),
        )
        | inr e₂ ↦
            let none_left : cursor - (seen + 1) ≡ 0 = ground arith in
            let shift : maximum - (count + 1) ≡ maximum - count - 1 = omega arith in
            rw (
              e₁,
              e₂,
              page-cons_add (name, e.directory) kids (cursor - seen) (maximum - count)
                  (ground arith) (ground arith),
              ← shift,
              added (ground arith),
              none_left,
            )
      ]
    ]

-- what a page shows: that many entries from the cursor on, where to go on, and whether all of
-- the directory was shown by then
abbrev pub shown : List Item → ℕ → ℕ → List Item × ℕ × Bool
shown items cursor maximum =
    let part = take maximum (drop cursor items) in
    (part, cursor + length part, leb (length items) (cursor + maximum))

-- A page of a directory is the next part of its children in the order of the image, with the
-- cursor of the part that follows; it says that the end is reached exactly if no child follows.
pub directory_list-shown :
    (es : List Entry) (directory : Bytes) (cursor maximum : ℕ)
    → directory_list es directory cursor maximum ≡ (
        if ltb (length es) cursor
        then err invalid_argument
        else ok (shown (children directory es) cursor maximum))
unfolding directory_list
directory_list-shown es directory cursor maximum =
    let c : cursor - 0 ≡ cursor = omega arith in
    let m : maximum - 0 ≡ maximum = omega arith in
    rw (list_from-page directory cursor maximum 0 0 es (omega arith), c, m) refl
