-- ===== src/Audio/Mix/Laws.antt =====
-- Mixing saturates, and a volume never makes a sample louder.
use stm32h745_disco.Base.{
  ℕ, List, [], ◌∷◌, map, ◌+◌, ◌*◌, ◌/◌, ◌≤◌, ◌≡◌, ◌⊎◌, refl, ap, ap₂, ◌∙◌, arith, suc, ◌==◌, length,
  Bool-cases, inl, inr,
}
use stm32h745_disco.Base.Int.{ℤ, pos, negsuc, ◌≤ℤ◌, sub_ℕ, pos_part, neg_part, +ℤ_comm}
use stm32h745_disco.Audio.Mix.{volume_to_codec, sat16, mix_add, scale, apply_volume, clamp_pct}

-- A 16-bit sample.
abbrev pub IsSample : ℤ → Type 0
IsSample x = (negsuc 32767 ≤ℤ x) × (x ≤ℤ pos 32767)

-- Saturation gives the sample nearest to a sum: the result is a sample, and it lies between the sum and
-- every sample.
pub sat16_nearest :
    (x y : ℤ)
    → IsSample y
    → IsSample (sat16 x) × (((x ≤ℤ sat16 x) × (sat16 x ≤ℤ y)) ⊎ ((y ≤ℤ sat16 x) × (sat16 x ≤ℤ x)))
unfolding sat16
sat16_nearest (pos x) y h = ground arith
sat16_nearest (negsuc x) y h = ground arith

-- Mixing two buffers of one length gives the same samples either way round.
pub mix_add_comm : (a b : List ℤ) → length a ≡ length b → mix_add a b ≡ mix_add b a
unfolding mix_add
mix_add_comm [] [] e = refl
mix_add_comm [] (y ∷ b) e = absurd (omega arith)
mix_add_comm (x ∷ a) [] e = absurd (omega arith)
mix_add_comm (x ∷ a) (y ∷ b) e = ap₂ ◌∷◌ (ap sat16 (+ℤ_comm x y)) (mix_add_comm a b (omega arith))

-- All samples of a buffer.
abbrev pub AllSamples : List ℤ → Type 0
AllSamples [] = Unit {0}
AllSamples (x ∷ xs) = IsSample x × AllSamples xs

below_zero : (k : ℕ) → (pos_part (sub_ℕ 0 k) ≡ 0) × (neg_part (sub_ℕ 0 k) ≡ k)
below_zero k = ground arith

scale_parts :
    (g : ℕ) (x : ℤ)
    → (pos_part (scale g x) ≡ pos_part x * g / 100) × (neg_part (scale g x) ≡ neg_part x * g / 100)
unfolding scale
scale_parts g (pos a) = ground arith
scale_parts g (negsuc a) =
    let e : a + 1 ≡ suc a = omega arith in
    let (p, n) = below_zero ((a + 1) * g / 100) in (p ∙ omega arith, n ∙ ap (λ k. k * g / 100) e)

mul_quiet : (a g : ℕ) → g ≤ 100 → a * g / 100 ≤ a
mul_quiet a g h = grind arith

-- Index by index, one buffer is at most as loud as another, on the same side of zero.
abbrev pub Quieter : List ℤ → List ℤ → Type 0
Quieter [] ys = Unit {0}
Quieter (x ∷ xs) [] = ⊥
Quieter (x ∷ xs) (y ∷ ys) = (pos_part x ≤ pos_part y) × (neg_part x ≤ neg_part y) × Quieter xs ys

-- Whatever percentage is asked for, `audio_apply_volume` makes no sample louder or of the other sign.
pub apply_volume-Quieter : (pcm : List ℤ) (pct : ℕ) → Quieter (apply_volume pcm pct) pcm
unfolding apply_volume
apply_volume-Quieter pcm pct = elim (Bool-cases (clamp_pct pct == 100)) [
  | inl full ↦ rw full (same pcm)
  | inr part ↦ rw part (scaled (clamp_pct pct) (ground arith) pcm)
]
  where
    same : (xs : List ℤ) → Quieter xs xs
    same [] = tt
    same (x ∷ xs) = (omega arith, omega arith, same xs)

    scaled : (g : ℕ) → g ≤ 100 → (xs : List ℤ) → Quieter (map (scale g) xs) xs
    scaled g h [] = tt
    scaled g h (x ∷ xs) =
        let p = scale_parts g x in
        (
          omega (arith, p.0, mul_quiet (pos_part x) g h),
          omega (arith, p.1, mul_quiet (neg_part x) g h),
          scaled g h xs,
        )

-- The codec's volume is in its range of 0 to 63, and rises with the percentage.
pub volume_to_codec_mono :
    (p q : ℕ) → p ≤ q → (volume_to_codec p ≤ volume_to_codec q) × (volume_to_codec q ≤ 63)
unfolding volume_to_codec
volume_to_codec_mono p q h = ground arith
