-- ===== src/Game/Chip8/Screen.antt =====
-- The drawing of a sprite, the case 0xD000 of `op_step`.
use stm32h745_disco.Base.{
  ℕ, zero, suc, Option, some, List, ◌+◌, ◌*◌, ◌/◌, ◌%◌, ◌^◌, leb, ◌==◌, if◌then◌else◌, not, ◌||◌,
  u8, bit_and, bit_xor,
}
use stm32h745_disco.Base.Access.{◌>>=◌, load, store}
use stm32h745_disco.Game.Chip8.{Chip8, mem_n, fb_w, fb_h}

-- The pixel at an index is turned over, and `s_v[0xF]` is set where it was on: the body of the loop over
-- the columns, for the bits that are set.
unfoldable pub plot : ℕ → List ℕ → List ℕ → Option (List ℕ × List ℕ)
plot at v fb = do
  b ← load fb at
  w ← if not (b == 0) then store v 0xF 1 else some v
  f ← store fb at (u8 (bit_xor b 1))
  some (w, f)

-- The loop over the columns of a row, `left` of them from `col` on.
unfoldable pub draw_cols : ℕ → ℕ → ℕ → ℕ → ℕ → List ℕ → List ℕ → Option (List ℕ × List ℕ)
draw_cols zero col px yy bits v fb = some (v, fb)
draw_cols (suc left) col px yy bits v fb = do
  (w, f) ←
      if bit_and bits (128 / 2 ^ col) == 0
      then some (v, fb)
      else plot (yy * fb_w + u8 ((px + col) % fb_w)) v fb
  draw_cols left (col + 1) px yy bits w f

-- The loop over the rows.
unfoldable pub draw_rows : ℕ → ℕ → ℕ → ℕ → ℕ → List ℕ → List ℕ → List ℕ → Option (List ℕ × List ℕ)
draw_rows zero row px py i mem v fb = some (v, fb)
draw_rows (suc left) row px py i mem v fb = if leb mem_n (i + row) then some (v, fb) else do
  bits ← load mem (i + row)
  (w, f) ← draw_cols 8 0 px (u8 ((py + row) % fb_h)) bits v fb
  draw_rows left (row + 1) px py i mem w f

-- The whole case: the flag is cleared first.
unfoldable pub draw_sprite : Chip8 → ℕ → ℕ → ℕ → Option Chip8
draw_sprite c x y n = do
  a ← load c.v x
  b ← load c.v y
  v ← store c.v 0xF 0
  (w, f) ← draw_rows n 0 (u8 (a % fb_w)) (u8 (b % fb_h)) c.i c.mem v c.fb
  some (record c { v = w; fb = f })

-- `chip8_pixel`
unfoldable pub chip8_pixel : Chip8 → ℕ → ℕ → Option ℕ
chip8_pixel c x y = if leb fb_w x || leb fb_h y then some 0 else load c.fb (y * fb_w + x)
