-- ===== src/Log/Lines.antt =====
-- The calls of the log keep its lines within their buffers, and a dump of bytes is always logged.
use stm32h745_disco.Base.{
  ℕ, zero, suc, Bool, Option, none, some, List, [], ◌∷◌, ◌≤◌, ◌≡◌, refl, arith, ltb, ◌==◌, ◌&&◌,
  length, Bool-cases, inl, inr,
}
use stm32h745_disco.Base.Access.{Safe, Safe-some, Safe-if, Partly, Partly-some}
use stm32h745_disco.Log.{log_line_max, copy_chars, copy_str, put_str}
use stm32h745_disco.Log.Format.{
  Arg, str, format_msg, format, format_one, percent, directive, convert, scan_zero, scan_width,
  scan_length, skip_ch, next_str,
}
use stm32h745_disco.Log.Write.{Log, emit, log_init, line_head, log_write, log_hex}
use stm32h745_disco.Log.Bounds.{Fits, line_head-Fits}
use stm32h745_disco.Log.Loop.{format-Fits}

abbrev pub AllFit : List (List ℕ) → Type 0
AllFit [] = Unit {0}
AllFit (line ∷ lines) = Fits log_line_max line × AllFit lines

-- Every line that the log has kept or handed on is shorter than the buffer of a line.
pub record LinesFit (g : Log) : Type 0 where
  pub last_fits : Fits log_line_max g.last
  pub sunk_fit : AllFit g.sunk

copy_chars-short : (room : ℕ) (s : List ℕ) → length (copy_chars room s) ≤ room
unfolding copy_chars
copy_chars-short zero s = omega arith
copy_chars-short (suc room) [] = omega arith
copy_chars-short (suc room) (c ∷ s) =
    let k = copy_chars-short room s in
    elim (Bool-cases (c == 0)) [ inl y ↦ simp y (omega arith) | inr y ↦ simp y (omega (arith, k)) ]

emit-LinesFit :
    (g : Log) (line : List ℕ) → LinesFit g → Fits log_line_max line → LinesFit (emit g line)
unfolding emit copy_str
emit-LinesFit g line ok h = record {
  last_fits = omega (arith, copy_chars-short 191 line);
  sunk_fit = elim (Bool-cases g.has_sink) [
    | inl y ↦ rw y (h, ok.sunk_fit)
    | inr y ↦ rw y ok.sunk_fit
  ];
}

log_init-LinesFit :
    (default_core : List ℕ) (board_sink : Bool) (g : Log)
    → LinesFit g
    → LinesFit (log_init default_core board_sink g)
unfolding log_init
log_init-LinesFit default_core board_sink g ok = elim (Bool-cases g.ready) [
  | inl y ↦ simp y ok
  | inr y ↦ simp y (record { last_fits = omega arith; sunk_fit = ok.sunk_fit })
]

format_msg-Fits :
    (out : List ℕ) (fmt : Option (List ℕ)) (args : List Arg)
    → Fits log_line_max out
    → Partly (Fits log_line_max) (format_msg log_line_max out fmt args)
unfolding format_msg
format_msg-Fits out none args h = Partly-some h
format_msg-Fits out (some fmt) args h = format-Fits (length fmt) out args fmt h

-- A call with the arguments that its format asks for is logged, in a line that fits.
log_write-Safe :
    (default_core : List ℕ) (board_sink : Bool) (g : Log) (now_ms lvl : ℕ)
    (mod_name fmt : Option (List ℕ)) (args : List Arg)
    → LinesFit g
    → ((out : List ℕ) → Safe (λ line. Unit {0}) (format_msg log_line_max out fmt args))
    → Safe LinesFit (log_write default_core board_sink g now_ms lvl mod_name fmt args)
unfolding log_write
log_write-Safe default_core board_sink g now_ms lvl mod_name fmt args ok served =
    let start = log_init-LinesFit default_core board_sink g ok in
    let g1 = log_init default_core board_sink g in
    let head = line_head default_core g1 now_ms lvl mod_name in
    let line = served head in
    let fits =
      (format_msg-Fits head fmt args (line_head-Fits default_core g1 now_ms lvl mod_name)).on
        line.result line.reached in
    Safe-if (ltb g1.level lvl) (λ e. Safe-some start)
      (λ e. rw line.reached (Safe-some (emit-LinesFit g1 line.result start fits)))

served_text :
    (n : ℕ) (out : List ℕ) (s : Option (List ℕ))
    → format_msg n out (some (b'%' ∷ b's' ∷ [])) (str s ∷ []) ≡ some (put_str n out s)
unfolding format_msg format format_one percent directive convert scan_zero scan_width scan_length
    skip_ch next_str
served_text n out s = refl

null_note : List ℕ
null_note = b'h' ∷ b'e' ∷ b'x' ∷ b' ' ∷ b'(' ∷ b'n' ∷ b'u' ∷ b'l' ∷ b'l' ∷ b')' ∷ []

served_note :
    (n : ℕ) (out : List ℕ) → Safe (λ line. Unit {0}) (format_msg n out (some null_note) [])
unfolding null_note format_msg format format_one
served_note n out = Safe-some tt

-- `log_hex` always returns, for any bytes, level and core, and every line that the log keeps or has
-- handed to its sink still has room for its terminator in a buffer of a line, if this held before.
pub log_hex-Safe :
    (default_core : List ℕ) (board_sink : Bool) (g : Log) (now_ms lvl : ℕ)
    (mod_name bytes : Option (List ℕ)) (n : ℕ)
    → LinesFit g
    → Safe LinesFit (log_hex default_core board_sink g now_ms lvl mod_name bytes n)
unfolding log_hex null_note
log_hex-Safe default_core board_sink g now_ms lvl mod_name none n ok =
    Safe-if (ltb g.level lvl && g.ready) (λ e. Safe-some ok)
      (λ e.
        log_write-Safe default_core board_sink g now_ms lvl mod_name (some null_note) [] ok
          (λ out. served_note log_line_max out))
log_hex-Safe default_core board_sink g now_ms lvl mod_name (some bytes) n ok =
    Safe-if (ltb g.level lvl && g.ready) (λ e. Safe-some ok)
      (λ e.
        log_write-Safe default_core board_sink g now_ms lvl mod_name _ (str _ ∷ []) ok
          (λ out. rw (served_text log_line_max out _) (Safe-some tt)))
