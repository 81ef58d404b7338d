-- ===== src/Audio/Mix.antt =====
-- The sample arithmetic of firmware/src/svc/audio_mix.c. A sample is an integer; the 32-bit sums and
-- products of 16-bit samples cannot overflow.
pub mod Laws
use stm32h745_disco.Base.{
  ℕ, Bool, true, false, Option, none, some, List, [], ◌∷◌, map, ◌+◌, ◌-◌, ◌*◌, ◌/◌, suc, ltb, ◌==◌,
  if◌then◌else◌,
}
use stm32h745_disco.Base.Int.{ℤ, pos, negsuc, ◌+ℤ◌, ltb_ℤ, sub_ℕ}

-- `pct` after its first guard.
abbrev pub clamp_pct : ℕ → ℕ
clamp_pct pct = if ltb 100 pct then 100 else pct

-- `audio_volume_to_codec`
unfoldable pub volume_to_codec : ℕ → ℕ
volume_to_codec pct = clamp_pct pct * 63 / 100

-- `audio_sat16`
unfoldable pub sat16 : ℤ → ℤ
sat16 x =
    if ltb_ℤ (pos 32767) x then pos 32767 else if ltb_ℤ x (negsuc 32767) then negsuc 32767 else x

-- `audio_mix_add`: the first samples of `dst` take those of `src`, `n` of them.
unfoldable pub mix_add : List ℤ → List ℤ → List ℤ
mix_add [] src = []
mix_add (d ∷ dst) [] = d ∷ dst
mix_add (d ∷ dst) (s ∷ src) = sat16 (d +ℤ s) ∷ mix_add dst src

-- `(x * g) / 100` in C, which rounds towards zero.
unfoldable pub scale : ℕ → ℤ → ℤ
scale g (pos a) = pos (a * g / 100)
scale g (negsuc a) = sub_ℕ 0 ((a + 1) * g / 100)

-- `audio_apply_volume` on `n` samples.
unfoldable pub apply_volume : List ℤ → ℕ → List ℤ
apply_volume pcm pct = if clamp_pct pct == 100 then pcm else map (scale (clamp_pct pct)) pcm
