-- ===== src/Seat/Tests.antt =====
-- Runs of the console and the cursor, and the laws at them.
use facet_os.Prelude.{ℕ, refl, Option, some, [], ◌∷◌, arith, Bytes}
use facet_os.Seat.Screen.Bounds.{IsValid}
use facet_os.Seat.Console.{Frame, fresh_screen, initialize, write}
use facet_os.Seat.Console.Terminals.{
  Written, Request, to_select, to_write, serve_all, initialize-IsValid, serve_all-IsValid,
  write-Written,
}
use facet_os.Seat.Console.Terminals

abbrev hello : Bytes
hello = b'h' ∷ b'e' ∷ b'l' ∷ b'l' ∷ b'o' ∷ []

fresh-IsValid : IsValid fresh_screen
unfolding fresh_screen
fresh-IsValid = record { all_cells = refl; on_screen = omega arith }

-- a display that always succeeds
abbrev display : Option (Frame → ℕ)
display = some (λ _. 0)

initialize-IsValid_example : Terminals.IsValid (initialize display)
initialize-IsValid_example = initialize-IsValid display

serve_all-IsValid_example :
    Terminals.IsValid
      (serve_all (initialize display) (to_select 2 ∷ to_write 2 hello ∷ to_select 9 ∷ []))
serve_all-IsValid_example =
    serve_all-IsValid (initialize display) (to_select 2 ∷ to_write 2 hello ∷ to_select 9 ∷ [])
      (initialize-IsValid display)

write-Written_example :
    Written (initialize display) 1 fresh_screen hello (write (initialize display) 1 hello)
write-Written_example =
    write-Written (initialize display) 1 hello (omega arith) (unfold initialize in refl)
