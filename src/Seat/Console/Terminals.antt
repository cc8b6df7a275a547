-- ===== src/Seat/Console/Terminals.antt =====
-- src/seat/pc_console.c: the terminals, each with a screen, and the display.
use facet_os.Prelude.{
  ℕ, zero, suc, ◌<◌, ◌≡◌, refl, ap, ◌∙◌, ◌≢◌, ◌⊎◌, inl, inr, false, Option, none, some, List, [],
  ◌∷◌, arith, leb, ◌==◌, if◌then◌else◌, Bool-cases, Option-cases, length, get_elem?, Bytes,
}
use facet_os.Seat.Screen.{Screen, put_bytes}
use facet_os.Seat.Screen.Bounds
use facet_os.Seat.Screen.Bounds.{put_bytes-IsValid}
use facet_os.Seat.Console.{
  Console, Frame, terminals, minus_one, fresh_screen, initialize, show, select, update_screen,
  write,
}

abbrev AllValid : List Screen → Type 0
AllValid [] = Unit
AllValid (s ∷ ss) = Bounds.IsValid s × AllValid ss

pub record IsValid (c : Console) : Type 0 where
  pub five : length c.screens ≡ terminals
  pub selected : c.active < terminals
  pub on_screens : AllValid c.screens

fresh_screen-IsValid : Bounds.IsValid fresh_screen
unfolding fresh_screen
fresh_screen-IsValid = record { all_cells = refl; on_screen = omega arith }

-- A console starts valid.
pub initialize-IsValid : (callback : Option (Frame → ℕ)) → IsValid (initialize callback)
unfolding initialize
initialize-IsValid callback = record {
  five = refl;
  selected = omega arith;
  on_screens = (v, (v, (v, (v, (v, tt)))));
}
  where
    v : Bounds.IsValid fresh_screen
    v = fresh_screen-IsValid

-- A request of a client of the seat.
pub data Request : Type 0 where
  to_select : ℕ → Request
  to_write : ℕ → Bytes → Request

pub serve : Console → Request → Console
serve c (to_select t) = (select c t).0
serve c (to_write t d) = (write c t d).0

pub serve_all : Console → List Request → Console
serve_all c [] = c
serve_all c (r ∷ rs) = serve_all (serve c r) rs

length-update_screen :
    (ss : List Screen) (i : ℕ) (d : Bytes) → length (update_screen ss i d) ≡ length ss
unfolding update_screen
length-update_screen [] i d = refl
length-update_screen (s ∷ ss) zero d = refl
length-update_screen (s ∷ ss) (suc i) d = ap suc (length-update_screen ss i d)

update_screen-AllValid :
    (ss : List Screen) (i : ℕ) (d : Bytes) → AllValid ss → AllValid (update_screen ss i d)
unfolding update_screen
update_screen-AllValid [] i d v = tt
update_screen-AllValid (s ∷ ss) zero d v = (put_bytes-IsValid s d v.0, v.1)
update_screen-AllValid (s ∷ ss) (suc i) d v = (v.0, update_screen-AllValid ss i d v.1)

select-IsValid : (c : Console) (t : ℕ) → IsValid c → IsValid (select c t).0
unfolding select
select-IsValid c t v = elim (Bool-cases (leb terminals t)) [
  | inl e ↦ rw e v
  | inr e ↦ rw e (record { five = v.five; selected = ground arith; on_screens = v.on_screens })
]

write-screens :
    (c : Console) (t : ℕ) (d : Bytes)
    → (write c t d).0
      ≡ (if leb terminals t then c else record c { screens = update_screen c.screens t d })
unfolding write
write-screens c t d = ground arith

write-IsValid : (c : Console) (t : ℕ) (d : Bytes) → IsValid c → IsValid (write c t d).0
write-IsValid c t d v = rw (write-screens c t d) (elim (Bool-cases (leb terminals t)) [
  | inl e ↦ rw e v
  | inr e ↦ rw e (record {
    five = length-update_screen c.screens t d ∙ v.five;
    selected = v.selected;
    on_screens = update_screen-AllValid c.screens t d v.on_screens;
  })
])

-- Whatever clients request of a valid console, it keeps five screens, each with its 2000 cells and
-- a cursor on it, and an existing terminal selected.
pub serve_all-IsValid : (c : Console) (rs : List Request) → IsValid c → IsValid (serve_all c rs)
unfolding serve_all serve
serve_all-IsValid c [] v = v
serve_all-IsValid c (to_select t ∷ rs) v =
    serve_all-IsValid (select c t).0 rs (select-IsValid c t v)
serve_all-IsValid c (to_write t d ∷ rs) v =
    serve_all-IsValid (write c t d).0 rs (write-IsValid c t d v)

get_elem?-update_screen_self :
    (ss : List Screen) (t : ℕ) (d : Bytes) {s : Screen}
    → get_elem? ss t ≡ some s
    → get_elem? (update_screen ss t d) t ≡ some (put_bytes s d)
unfolding update_screen
get_elem?-update_screen_self [] t d h = cc
get_elem?-update_screen_self (s ∷ ss) zero d h = cc
get_elem?-update_screen_self (s ∷ ss) (suc t) d h = get_elem?-update_screen_self ss t d h

get_elem?-update_screen_ne :
    (ss : List Screen) (t j : ℕ) (d : Bytes)
    → j ≢ t
    → get_elem? (update_screen ss t d) j ≡ get_elem? ss j
unfolding update_screen
get_elem?-update_screen_ne [] t j d h = refl
get_elem?-update_screen_ne (s ∷ ss) zero zero d h = absurd (h refl)
get_elem?-update_screen_ne (s ∷ ss) zero (suc j) d h = refl
get_elem?-update_screen_ne (s ∷ ss) (suc t) zero d h = refl
get_elem?-update_screen_ne (s ∷ ss) (suc t) (suc j) d h =
    get_elem?-update_screen_ne ss t j d (λ e. h (ap suc e))

-- the callback sees the screen that was written, exactly if it is the one on the display
abbrev pub Shown : Console → ℕ → Screen → ℕ × Option Frame → Type 0
Shown c t s (result, frame) =
    (t ≢ c.active) × (result ≡ 0) × (frame ≡ none)
    ⊎ (t ≡ c.active)
      × (frame ≡ elim c.present [ none ↦ none | some callback ↦ some (s.cells, s.cursor) ])
      × (result
          ≡ elim c.present [ none ↦ minus_one | some callback ↦ callback (s.cells, s.cursor) ])

write-Shown :
    (c : Console) (t : ℕ) (d : Bytes) {s : Screen}
    → t < terminals
    → get_elem? (update_screen c.screens t d) t ≡ some s
    → (c.present ≡ none) ⊎ ((f : Frame → ℕ) × (c.present ≡ some f))
    → Shown c t s ((write c t d).1, (write c t d).2)
unfolding write show
write-Shown c t d {s} lt here (inl p) = ground arith
write-Shown c t d {s} lt here (inr (f, p)) =
    let small : leb terminals t ≡ false = ground arith in
    elim (Bool-cases (t == c.active)) [
      | inl same ↦
          let e : t ≡ c.active = ground arith in
          let low : leb terminals c.active ≡ false = ground arith in
          let seen : get_elem? (update_screen c.screens t d) c.active ≡ some s = rw (← e) here in
          inr (e, rw (small, same, low, p, seen) refl, rw (small, same, low, p, seen) refl)
      | inr other ↦ inl (ground arith, rw (small, other), rw (small, other))
    ]

pub record Written (c : Console) (t : ℕ) (s : Screen) (d : Bytes) (out : Console × ℕ × Option Frame)
    : Type 0 where
  pub on_screens :
      (j : ℕ)
      → get_elem? out.0.screens j ≡ (if j == t then some (put_bytes s d) else get_elem? c.screens j)
  pub still_active : out.0.active ≡ c.active
  pub shown : Shown c t (put_bytes s d) (out.1, out.2)

-- Writing to a terminal puts the bytes on its screen and on no other, selects nothing, and gives
-- the new screen to the display exactly if that terminal is the active one.
pub write-Written :
    (c : Console) (t : ℕ) (d : Bytes) {s : Screen}
    → t < terminals
    → get_elem? c.screens t ≡ some s
    → Written c t s d (write c t d)
write-Written c t d {s} lt here = record {
  on_screens = λ j. elim (Bool-cases (j == t)) [
    | inl p ↦
        let there : j ≡ t = ground arith in
        rw (write-screens c t d, e, p, there) (get_elem?-update_screen_self c.screens t d here)
    | inr p ↦
        rw (write-screens c t d, e, p) (get_elem?-update_screen_ne c.screens t j d (ground arith))
  ];
  still_active = rw (write-screens c t d, e);
  shown =
      write-Shown c t d lt (get_elem?-update_screen_self c.screens t d here)
        (Option-cases c.present);
}
  where
    e : leb terminals t ≡ false
    e = ground arith
