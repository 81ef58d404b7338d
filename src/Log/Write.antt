-- ===== src/Log/Write.antt =====
-- The state of the log and its calls, in firmware/src/svc/log.c.
use stm32h745_disco.Base.{
  ℕ, Bool, true, false, Option, none, some, List, [], ◌∷◌, ◌+◌, ltb, ◌==◌, if◌then◌else◌, ◌&&◌,
  ◌||◌, u32, length, take,
}
use stm32h745_disco.Base.Access.{◌>>=◌}
use stm32h745_disco.Log.{log_line_max, copy_str, put_ch, put_str, put_u64}
use stm32h745_disco.Log.Format.{Arg, str, format_msg}

-- The static variables; `has_sink` says that a sink is set, and `sunk` is what it has been given, the
-- last line first. The clock is a number that its caller gives.
pub record Log : Type 0 where
  pub ready : Bool
  pub level : ℕ
  pub core : List ℕ
  pub last : List ℕ
  pub count : ℕ
  pub has_sink : Bool
  pub sunk : List (List ℕ)

abbrev pub core_max : ℕ
core_max = 8

abbrev pub mod_max : ℕ
mod_max = 16

-- `lvl_ch`
unfoldable pub lvl_ch : ℕ → ℕ
lvl_ch lvl = if lvl == 0 then b'E' else if lvl == 1 then b'W' else if lvl == 3 then b'D' else b'I'

abbrev pub is_empty : Option (List ℕ) → Bool
is_empty none = true
is_empty (some []) = true
is_empty (some (c ∷ cs)) = false

abbrev pub or_else : Option (List ℕ) → List ℕ → List ℕ
or_else none d = d
or_else (some []) d = d
or_else (some (c ∷ cs)) d = c ∷ cs

-- `emit`
unfoldable pub emit : Log → List ℕ → Log
emit g line = record g {
  count = u32 (g.count + 1);
  last = copy_str log_line_max (some line);
  sunk = if g.has_sink then line ∷ g.sunk else g.sunk;
}

-- `log_init` on a core with a name and, on the M7, the sink of the board.
unfoldable pub log_init : List ℕ → Bool → Log → Log
log_init default_core board_sink g = if g.ready then g else record g {
  level = 2;
  core = if is_empty (some g.core) then copy_str core_max (some default_core) else g.core;
  has_sink = g.has_sink || board_sink;
  last = [];
  ready = true;
}

-- `log_reset`
unfoldable pub log_reset : Log → Log
log_reset g = record {
  ready = false;
  level = 2;
  core = [];
  last = [];
  count = 0;
  has_sink = false;
  sunk = g.sunk;
}

-- `log_set_level`
unfoldable pub log_set_level : Log → ℕ → Log
log_set_level g lvl = record g { level = if ltb 3 lvl then 3 else lvl }

-- `log_set_core`
unfoldable pub log_set_core : List ℕ → Log → Option (List ℕ) → Log
log_set_core default_core g core = record g {
  core = copy_str core_max (some (or_else core default_core));
}

-- `log_set_sink`
unfoldable pub log_set_sink : Log → Bool → Log
log_set_sink g given = record g { has_sink = given }

-- The fields before the message: core, time, level and module, each with a comma behind it.
unfoldable pub line_head : List ℕ → Log → ℕ → ℕ → Option (List ℕ) → List ℕ
line_head default_core g now_ms lvl mod_name =
    let n = log_line_max in
    let tag = copy_str mod_max (some (or_else mod_name (b'a' ∷ b'p' ∷ b'p' ∷ []))) in
    let o1 = put_str n [] (some (or_else (some g.core) default_core)) in
    let o2 = put_u64 n (put_ch n o1 b',') now_ms 10 false 0 false in
    let o3 = put_ch n (put_ch n o2 b',') (lvl_ch lvl) in
    put_ch n (put_str n (put_ch n o3 b',') (some tag)) b','

-- `log_write` at the time `now_ms`.
unfoldable pub log_write :
    List ℕ → Bool → Log → ℕ → ℕ → Option (List ℕ) → Option (List ℕ) → List Arg → Option Log
log_write default_core board_sink g0 now_ms lvl mod_name fmt args =
    let g = log_init default_core board_sink g0 in
    if ltb g.level lvl
    then some g
    else (format_msg log_line_max (line_head default_core g now_ms lvl mod_name) fmt args
        >>= λ line. some (emit g line))

-- The loop of `log_hex` over the bytes, into 48 bytes.
unfoldable pub put_hex : List ℕ → List ℕ → List ℕ
put_hex out [] = out
put_hex out (b ∷ bs) =
    let o = if length out == 0 then out else put_ch 48 out b' ' in
    put_hex (put_u64 48 o b 16 true 2 true) bs

-- `log_hex`
unfoldable pub log_hex :
    List ℕ → Bool → Log → ℕ → ℕ → Option (List ℕ) → Option (List ℕ) → ℕ → Option Log
log_hex default_core board_sink g now_ms lvl mod_name none n =
    if ltb g.level lvl && g.ready
    then some g
    else log_write default_core board_sink g now_ms lvl mod_name
        (some (b'h' ∷ b'e' ∷ b'x' ∷ b' ' ∷ b'(' ∷ b'n' ∷ b'u' ∷ b'l' ∷ b'l' ∷ b')' ∷ [])) []
log_hex default_core board_sink g now_ms lvl mod_name (some bytes) n =
    if ltb g.level lvl && g.ready
    then some g
    else log_write default_core board_sink g now_ms lvl mod_name (some (b'%' ∷ b's' ∷ []))
        (str (some (put_hex [] (take (if ltb 16 n then 16 else n) bytes))) ∷ [])
