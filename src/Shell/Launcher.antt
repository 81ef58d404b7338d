-- ===== src/Shell/Launcher.antt =====
-- The launcher's grid of tiles: firmware/src/shell/launcher_geom.c.
pub mod Grid
use stm32h745_disco.Base.{
  ℕ, zero, suc, Bool, true, false, Option, none, some, ◌+◌, ◌-◌, ◌*◌, ◌/◌, ◌%◌, ltb, leb,
  if◌then◌else◌, ◌&&◌, ◌||◌, not, u16, sub16,
}
use stm32h745_disco.Base.Int.{ℤ, pos, negsuc}

-- The constants of firmware/include/ui/launcher.h and theme.h.
abbrev pub launcher_cols : ℕ
launcher_cols = 3

abbrev pub launcher_rows : ℕ
launcher_rows = 2

abbrev pub launcher_count : ℕ
launcher_count = 6

abbrev pub launcher_tile_px : ℕ
launcher_tile_px = 108

abbrev pub launcher_tile_h : ℕ
launcher_tile_h = 86

abbrev pub launcher_gutter_px : ℕ
launcher_gutter_px = 16

abbrev pub launcher_greet_h : ℕ
launcher_greet_h = 32

abbrev pub theme_hit_min_px : ℕ
theme_hit_min_px = 40

abbrev pub theme_status_h : ℕ
theme_status_h = 32

abbrev pub theme_panel_w : ℕ
theme_panel_w = 480

abbrev pub theme_panel_h : ℕ
theme_panel_h = 272

abbrev pub theme_content_h : ℕ
theme_content_h = 240

-- `ui_rect_t`
pub record Rect : Type 0 where
  pub x : ℕ
  pub y : ℕ
  pub w : ℕ
  pub h : ℕ

-- `content_h` after the first guard of `launcher_tile_rect_in`.
unfoldable pub content : ℕ → ℕ
content content_h =
    if ltb content_h (launcher_greet_h + theme_hit_min_px)
    then launcher_greet_h + theme_hit_min_px
    else content_h

-- The height of two rows of tiles and the gutter between them.
abbrev pub rows_h : ℕ → ℕ
rows_h tile_h = u16 (launcher_rows * tile_h + (launcher_rows - 1) * launcher_gutter_px)

-- `tile_h`, which shrinks where `inner` is too low for two full rows.
unfoldable pub tile_height : ℕ → ℕ
tile_height inner =
    let gaps = u16 ((launcher_rows - 1) * launcher_gutter_px) in
    let room = if ltb gaps inner then u16 (inner - gaps) else inner in
    let low = u16 (room / launcher_rows) in
    if ltb inner (rows_h launcher_tile_h)
    then (if ltb low theme_hit_min_px then theme_hit_min_px else low)
    else launcher_tile_h

-- `oy`
unfoldable pub origin_y : ℕ → ℕ → ℕ
origin_y content_h grid_h =
    if ltb (launcher_greet_h + grid_h) content_h
    then u16 (theme_status_h + launcher_greet_h + (content_h - launcher_greet_h - grid_h) / 2)
    else u16 (theme_status_h + launcher_greet_h)

-- `launcher_tile_rect_in`
unfoldable pub tile_rect_in : ℕ → ℕ → Rect
unfolding content tile_height origin_y
tile_rect_in index content_h0 =
    let content_h = content content_h0 in
    let tile_h = tile_height (sub16 content_h launcher_greet_h) in
    let step_x = u16 (launcher_tile_px + launcher_gutter_px) in
    let step_y = u16 (tile_h + launcher_gutter_px) in
    let grid_w =
      u16 (launcher_cols * launcher_tile_px + (launcher_cols - 1) * launcher_gutter_px) in
    let ox = u16 ((theme_panel_w - grid_w) / 2) in
    let oy = origin_y content_h (rows_h tile_h) in
    if leb launcher_count index then record { x = 0; y = 0; w = 0; h = 0 } else record {
      x = u16 (ox + index % launcher_cols * step_x);
      y = u16 (oy + index / launcher_cols * step_y);
      w = launcher_tile_px;
      h = tile_h;
    }

-- `launcher_tile_rect`
unfoldable pub tile_rect : ℕ → Rect
tile_rect index = tile_rect_in index theme_content_h

-- The test of the loop of `launcher_hit_in`.
unfoldable pub inside : ℕ → ℕ → Rect → Bool
inside x y r = leb r.x x && (ltb x (u16 (r.x + r.w)) && (leb r.y y && ltb y (u16 (r.y + r.h))))

-- The loop of `launcher_hit_in` with `left` tiles left; `none` is -1.
unfoldable pub hit_from : ℕ → ℕ → ℕ → ℕ → Option ℕ
unfolding inside
hit_from zero x y content_h = none
hit_from (suc left) x y content_h =
    let i = launcher_count - suc left in
    let rest = hit_from left x y content_h in
    if inside x y (tile_rect_in i content_h) then some i else rest

-- `launcher_hit_in`
unfoldable pub hit_in : ℤ → ℤ → ℕ → Option ℕ
hit_in (negsuc x) y content_h = none
hit_in (pos x) (negsuc y) content_h = none
hit_in (pos x) (pos y) content_h =
    if ltb y theme_status_h then none else hit_from launcher_count x y content_h

-- `launcher_hit`
unfoldable pub hit : ℤ → ℤ → Option ℕ
hit x y = hit_in x y theme_content_h
