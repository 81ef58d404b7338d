-- ===== src/Shell/Nav.antt =====
-- The stack of open screens: firmware/src/shell/nav.c. A frame's `id` is a string or NULL, its
-- `args` a pointer, which is only kept.
pub mod Laws
use stm32h745_disco.Base.{
  ℕ, suc, zero, Bool, true, false, Option, none, some, List, [], ◌∷◌, ◌+◌, ◌-◌, ltb, leb, ◌==◌,
  if◌then◌else◌, ◌||◌, u32, length, get_or, set, replicate, Err,
}

abbrev pub nav_stack_max : ℕ
nav_stack_max = 8

-- `nav_frame_t`
pub record Frame : Type 0 where
  pub id : Option (List ℕ)
  pub args : Option ℕ

-- `nav_stack_t`
pub record Nav : Type 0 where
  pub frames : List Frame
  pub depth : ℕ
  pub gen : ℕ

abbrev pub null_frame : Frame
null_frame = record { id = none; args = none }

-- `id == NULL || id[0] == '\0'`
abbrev pub is_unnamed : Option (List ℕ) → Bool
is_unnamed none = true
is_unnamed (some []) = true
is_unnamed (some (c ∷ cs)) = false

-- `nav_init`
unfoldable pub nav_init : Nav → Nav
nav_init s = record { frames = replicate nav_stack_max null_frame; depth = 0; gen = 0 }

-- `nav_push`
unfoldable pub nav_push : Nav → Option (List ℕ) → Option ℕ → Err × Nav
nav_push s id args =
    if is_unnamed id
    then (Err.inval, s)
    else if leb nav_stack_max s.depth
    then (Err.nospc, s)
    else (
      Err.ok,
      record {
        frames = set s.frames s.depth (record { id = id; args = args });
        depth = s.depth + 1;
        gen = u32 (s.gen + 1);
      },
    )

-- `nav_pop`
unfoldable pub nav_pop : Nav → Err × Nav
nav_pop s = if s.depth == 0 then (Err.noent, s) else (
  Err.ok,
  record {
    frames = set s.frames (s.depth - 1) null_frame;
    depth = s.depth - 1;
    gen = u32 (s.gen + 1);
  },
)

-- The loop of `nav_home`, which clears the frames below `depth` from the top down.
unfoldable pub clear_down : ℕ → List Frame → List Frame
clear_down zero frames = frames
clear_down (suc k) frames = clear_down k (set frames k null_frame)

-- `nav_home`
unfoldable pub nav_home : Nav → Nav
nav_home s =
    if s.depth == 0
    then s
    else record { frames = clear_down s.depth s.frames; depth = 0; gen = u32 (s.gen + 1) }

-- `nav_top`
unfoldable pub nav_top : Nav → Option Frame
nav_top s = if s.depth == 0 then none else some (get_or s.frames (s.depth - 1) null_frame)
