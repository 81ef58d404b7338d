-- ===== src/Log/Tests.antt =====
-- The log at concrete inputs.
use stm32h745_disco.Base.{
  ℕ, true, false, none, some, List, [], ◌∷◌, ◌++◌, ◌≤◌, ◌≡◌, refl, arith, length,
}
use stm32h745_disco.Base.Int.{negsuc}
use stm32h745_disco.Base.Access.{Safe}
use stm32h745_disco.Log.{put_ch, digit_ch, digits_of, put_pad, put_back, put_u64, uabs64}
use stm32h745_disco.Log.Format.{
  num, str, next_num, scan_width, scan_zero, skip_ch, scan_length, put_signed, convert, directive,
  percent, format_one, format, format_msg,
}
use stm32h745_disco.Log.Write.{Log, log_hex}
use stm32h745_disco.Log.Loop.{Ends, format-Ends}
use stm32h745_disco.Log.Lines.{LinesFit, log_hex-Safe}
use stm32h745_disco.Log.Digits.{read_dec, put_u64-read}

-- "%4d" of -5 has its sign before the spaces.
padded_sign :
    format_msg 192 [] (some (b'%' ∷ b'4' ∷ b'd' ∷ [])) (num 0 (negsuc 4) ∷ [])
    ≡ some (b'-' ∷ b' ' ∷ b' ' ∷ b'5' ∷ [])
unfolding put_ch digit_ch digits_of put_pad put_back put_u64 uabs64 next_num scan_width scan_zero
    skip_ch scan_length put_signed convert directive percent format_one format format_msg
padded_sign = refl

abbrev running : Log
running = record {
  ready = true;
  level = 2;
  core = b'm' ∷ b'7' ∷ [];
  last = [];
  count = 0;
  has_sink = true;
  sunk = [];
}

log_hex-Safe_example :
    Safe LinesFit (log_hex (b'm' ∷ b'7' ∷ []) true running 1234 2 none (some (0x1F ∷ 0xA0 ∷ [])) 2)
log_hex-Safe_example =
    log_hex-Safe (b'm' ∷ b'7' ∷ []) true running 1234 2 none (some (0x1F ∷ 0xA0 ∷ [])) 2
      (record { last_fits = omega arith; sunk_fit = tt })

format-Ends_example :
    Ends 192 []
      (str (some (b'a' ∷ [])) ∷ [])
      (b'\n' ∷ b'%' ∷ b's' ∷ [])
      (format 3 192 [] (str (some (b'a' ∷ [])) ∷ []) (b'\n' ∷ b'%' ∷ b's' ∷ []))
format-Ends_example =
    format-Ends 3 [] (str (some (b'a' ∷ [])) ∷ []) (b'\n' ∷ b'%' ∷ b's' ∷ []) (omega arith)
      (omega arith)

put_u64-read_example :
    (text : List ℕ) × (put_u64 192 (b'=' ∷ []) 1605 10 false 6 true ≡ (b'=' ∷ []) ++ text)
    × (1 ≤ length text)
    × (6 ≤ length text)
    × (read_dec 0 text ≡ some 1605)
put_u64-read_example =
    put_u64-read (b'=' ∷ []) 1605 false 6 (omega arith) (omega arith) (omega arith)
