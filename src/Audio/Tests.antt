-- ===== src/Audio/Tests.antt =====
-- The pipe and the mixer on small inputs.
use stm32h745_disco.Base.{
  ℕ, some, [], ◌∷◌, ◌++◌, ◌-◌, ◌≡◌, refl, arith, min, length, take, replicate, length-replicate,
}
use stm32h745_disco.Base.Int.{pos, negsuc, ◌+ℤ◌}
use stm32h745_disco.Audio.Pipe.{Pipe, audio_pipe_cap, pipe_push}
use stm32h745_disco.Audio.Pipe.Laws.{IsValid, contents, pipe_push_lem}
use stm32h745_disco.Audio.Mix.{sat16, mix_add, apply_volume}
use stm32h745_disco.Audio.Mix.Laws.{Quieter, apply_volume-Quieter}

-- Three bytes wait, across the wrap of the read counter.
abbrev waiting : Pipe
waiting = record { bytes = replicate audio_pipe_cap 5; wr = 1; rd = 4294967294 }

waiting-IsValid : IsValid waiting
waiting-IsValid = record {
  size = length-replicate {A = ℕ} audio_pipe_cap 5;
  wr_fits = omega arith;
  rd_fits = omega arith;
  used_fits = omega arith;
}

pipe_push_lem_example :
    let (m, p') = pipe_push waiting (some (1 ∷ 2 ∷ [])) 2 in
    (m ≡ min 2 (audio_pipe_cap - length (contents waiting)))
    × IsValid p'
    × (contents p' ≡ contents waiting ++ take m (1 ∷ 2 ∷ []))
pipe_push_lem_example = pipe_push_lem (1 ∷ 2 ∷ []) 2 waiting-IsValid (omega arith)

mixed : mix_add (pos 30000 ∷ negsuc 9 ∷ []) (pos 5000 ∷ pos 4 ∷ []) ≡ pos 32767 ∷ negsuc 5 ∷ []
unfolding mix_add sat16 ◌+ℤ◌
mixed = refl

apply_volume-Quieter_example :
    Quieter (apply_volume (pos 300 ∷ negsuc 199 ∷ []) 50) (pos 300 ∷ negsuc 199 ∷ [])
apply_volume-Quieter_example = apply_volume-Quieter (pos 300 ∷ negsuc 199 ∷ []) 50
