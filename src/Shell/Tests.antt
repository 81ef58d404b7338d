-- ===== src/Shell/Tests.antt =====
-- The screen stack and the launcher on small inputs.
use stm32h745_disco.Base.{ℕ, none, some, [], ◌∷◌, ◌++◌, ◌+◌, ◌<◌, ◌≡◌, ◌↔◌, refl, arith, u32, Err}
use stm32h745_disco.Base.Int.{pos}
use stm32h745_disco.Shell.Nav.{Frame, Nav, nav_pop, null_frame}
use stm32h745_disco.Shell.Nav.Laws.{Holds, nav_pop_lem}
use stm32h745_disco.Shell.Launcher.{
  tile_rect_in, hit_in, launcher_count, content, tile_height, origin_y,
}
use stm32h745_disco.Shell.Launcher.Grid.{In, tiles_disjoint, hit_in_iff}

-- A stack out of use: one stale frame.
abbrev stale : Nav
stale = record { frames = []; depth = 3; gen = 7 }

abbrev home : Frame
home = record { id = some (b'h' ∷ []); args = none }

abbrev files : Frame
files = record { id = some (b'f' ∷ []); args = some 4 }

-- A stack with one screen open.
abbrev one_open : Nav
one_open = record {
  frames =
      home ∷ null_frame ∷ null_frame ∷ null_frame ∷ null_frame ∷ null_frame ∷ null_frame
      ∷ null_frame ∷ [];
  depth = 1;
  gen = 1;
}

one_open-Holds : Holds one_open (home ∷ [])
one_open-Holds = record { fits = omega arith; count = refl; array = refl }

-- A stack with two.
abbrev two_open : Nav
two_open = record {
  frames =
      home ∷ files ∷ null_frame ∷ null_frame ∷ null_frame ∷ null_frame ∷ null_frame ∷ null_frame
      ∷ [];
  depth = 2;
  gen = 4294967295;
}

two_open-Holds : Holds two_open ((home ∷ []) ++ files ∷ [])
two_open-Holds = record { fits = omega arith; count = refl; array = refl }

nav_pop_lem_example :
    let (e, s') = nav_pop two_open in
    (e ≡ Err.ok) × Holds s' (home ∷ []) × (s'.gen ≡ u32 (4294967295 + 1))
nav_pop_lem_example = nav_pop_lem files two_open-Holds

-- The first two tiles at the standard height.
first_tile : tile_rect_in 0 240 ≡ record { x = 62; y = 74; w = 108; h = 86 }
unfolding tile_rect_in content tile_height origin_y
first_tile = refl

In-first : In 100 100 (tile_rect_in 0 240)
unfolding tile_rect_in content tile_height origin_y
In-first = omega arith

abbrev touched : ℕ
touched = 0

tiles_disjoint_example : touched ≡ touched
tiles_disjoint_example =
    tiles_disjoint 100 100 touched touched 240 (omega arith) (omega arith) (omega arith) In-first
      In-first

hit_in_iff_example :
    (hit_in (pos 100) (pos 100) 240 ≡ some 0)
    ↔ ((0 < launcher_count) × In 100 100 (tile_rect_in 0 240))
hit_in_iff_example = hit_in_iff 100 100 0 240 (omega arith)
