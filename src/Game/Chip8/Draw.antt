-- ===== src/Game/Chip8/Draw.antt =====
-- `chip8_draw` of firmware/src/game/chip8.c, over the calls of gfx.c. Every access to an array goes through
-- Base.Access and is `none` past its end.
use stm32h745_disco.Base.{
  ℕ, zero, suc, Option, none, some, ◌+◌, ◌-◌, ◌*◌, ◌/◌, ◌%◌, ◌^◌, ltb, leb, ◌==◌, if◌then◌else◌,
  not, ◌&&◌, ◌||◌, u16, bit_and,
}
use stm32h745_disco.Base.Access.{◌>>=◌, load}
use stm32h745_disco.Base.Int.{ℤ, pos, ◌+ℤ◌, ◌-ℤ◌, ltb_ℤ, div_ℤ, i16}
use stm32h745_disco.Game.{Game}
use stm32h745_disco.Game.Gfx.{Gfx, GfxStats, gfx_clear, gfx_fill}
use stm32h745_disco.Game.Brick.Draw.{rgb565}
use stm32h745_disco.Game.Chip8.{Chip8, fb_w, fb_h}
use stm32h745_disco.Game.Chip8.Machine.{k_font, k_hex, pad_layout}

-- The statistics and the picture that the calls of gfx.c work on.
abbrev pub Picture : Type 0
Picture = GfxStats × Gfx

-- The loop of `draw_glyph` over the columns of one row of a digit: `n` of them from `c` on.
unfoldable pub glyph_cols : ℕ → ℕ → ℕ → ℤ → ℤ → ℕ → ℕ → Picture → Option Picture
glyph_cols zero c row x y scale color p = some p
glyph_cols (suc n) c row x y scale color p = do
  p1 ←
      if bit_and row (0x80 / 2 ^ c) == 0
      then some p
      else gfx_fill p.0 p.1
          (record { x = i16 (x +ℤ pos (c * scale)); y = i16 y; w = u16 scale; h = u16 scale }) color
  glyph_cols n (c + 1) row x y scale color p1

-- The loop over its rows: `n` of them from `r` on.
unfoldable pub glyph_rows : ℕ → ℕ → ℕ → ℤ → ℤ → ℕ → ℕ → Picture → Option Picture
glyph_rows zero r hex x y scale color p = some p
glyph_rows (suc n) r hex x y scale color p = do
  row ← load k_font (hex % 16 * 5 + r)
  p1 ← glyph_cols 4 0 row x (y +ℤ pos (r * scale)) scale color p
  glyph_rows n (r + 1) hex x y scale color p1

-- `draw_glyph`
unfoldable pub draw_glyph : ℤ → ℤ → ℕ → ℕ → ℕ → Picture → Option Picture
draw_glyph x y hex scale color p = glyph_rows 5 0 hex x y scale color p

-- The loops over the pixels of the machine: `n` columns from `x` on, and `n` rows from `y` on.
unfoldable pub pixel_cols : ℕ → ℕ → ℕ → Chip8 → ℤ → ℤ → ℕ → Picture → Option Picture
pixel_cols zero x y c ox oy scale p = some p
pixel_cols (suc n) x y c ox oy scale p = do
  on ← load c.fb (y * fb_w + x)
  p1 ←
      if on == 0
      then some p
      else gfx_fill p.0 p.1
          (record {
            x = i16 (ox +ℤ pos (x * scale));
            y = i16 (oy +ℤ pos (y * scale));
            w = u16 scale;
            h = u16 scale;
          })
          (rgb565 0xE8ECF1)
  pixel_cols n (x + 1) y c ox oy scale p1

unfoldable pub pixel_rows : ℕ → ℕ → Chip8 → ℤ → ℤ → ℕ → Picture → Option Picture
pixel_rows zero y c ox oy scale p = some p
pixel_rows (suc n) y c ox oy scale p = do
  p1 ← pixel_cols fb_w 0 y c ox oy scale p
  pixel_rows n (y + 1) c ox oy scale p1

-- The loops over the keys of the pad, whose place and size are kept before.
unfoldable pub pad_cols : ℕ → ℕ → ℕ → Chip8 → Picture → Option Picture
pad_cols zero x y c p = some p
pad_cols (suc n) x y c p =
    let cell = c.pad_s in
    let gs = if leb 36 cell then 2 else 1 in
    let rx = i16 (c.pad_x +ℤ pos (x * cell) +ℤ pos 2) in
    let ry = i16 (c.pad_y +ℤ pos (y * cell) +ℤ pos 2) in
    let rw = u16 (cell - 4) in
    do
      hex ← load k_hex (y * 4 + x)
      down ← load c.key hex
      p1 ←
          gfx_fill p.0 p.1 (record { x = rx; y = ry; w = rw; h = rw })
            (if not (down == 0) then rgb565 0xFF9F0A else rgb565 0xEEF1F6)
      p2 ←
          draw_glyph (rx +ℤ div_ℤ (pos rw -ℤ pos (4 * gs)) 2)
            (ry +ℤ div_ℤ (pos rw -ℤ pos (5 * gs)) 2) hex gs (rgb565 0x1A2030) p1
      pad_cols n (x + 1) y c p2

unfoldable pub pad_rows : ℕ → ℕ → Chip8 → Picture → Option Picture
pad_rows zero y c p = some p
pad_rows (suc n) y c p = do p1 ← pad_cols 4 0 y c p; pad_rows n (y + 1) c p1

abbrev pub at_least : ℕ → ℕ → ℕ
at_least low n = if ltb n low then low else n

-- The pixels of the picture for one of the machine, in a width and a height.
unfoldable pub scale_of : ℕ → ℕ → ℕ
scale_of fw fh = let s = fh / fb_h in at_least 1 (if ltb (fw / fb_w) s then fw / fb_w else s)

-- `chip8_draw`. The differences of the guarded width and height are not negative.
unfoldable pub chip8_draw :
    Option Game → Chip8 → GfxStats → Option Gfx → Option (Chip8 × GfxStats × Option Gfx)
chip8_draw none c st fx = some (c, st, fx)
chip8_draw (some g) c st none = some (c, st, none)
chip8_draw (some g) c st (some fx) =
    let side = leb 400 g.w && leb 140 g.h in
    let bottom = not side && leb 148 g.h in
    let fw = at_least fb_w (if side then g.w - 176 else g.w) in
    let fh = at_least fb_h (if bottom then g.h - 120 else g.h) in
    let scale = scale_of fw fh in
    let middle = div_ℤ (pos (if bottom then fh else g.h) -ℤ pos (fb_h * scale)) 2 in
    let oy = if ltb_ℤ middle (pos 4) then pos 4 else middle in
    let c1 = pad_layout c g.w g.h in
    do
      p1 ← gfx_clear st fx (rgb565 0xF4F6FA)
      p2 ←
          gfx_fill p1.0 p1.1
            (record { x = pos 8; y = i16 oy; w = u16 (fb_w * scale); h = u16 (fb_h * scale) })
            (rgb565 0x12141A)
      p3 ← pixel_rows fb_h 0 c (pos 8) oy scale p2
      p4 ← if side || bottom then pad_rows 4 0 c1 p3 else some p3
      some (c1, p4.0, some p4.1)
