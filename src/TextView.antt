-- ===== src/TextView.antt =====
-- The text window of firmware/src/svc/text_view.c: how bytes of a file become the text that is shown.
pub mod State
pub mod Utf8
pub mod Emit
pub mod Kept
pub mod Prefix
pub mod Fuel
pub mod Window
pub mod Pages
pub mod Stuck
pub mod Calls
mod Tests
use stm32h745_disco.Base.{
  ℕ, zero, suc, Bool, true, false, Option, none, some, List, [], ◌∷◌, ◌++◌, ◌+◌, ◌-◌, ◌*◌, ◌/◌, ◌%◌,
  ltb, leb, ◌==◌, if◌then◌else◌, not, ◌&&◌, ◌||◌, length, get_or, take, drop,
}

abbrev pub text_win_max : ℕ
text_win_max = 32768

-- `REPL`
abbrev pub repl : ℕ
repl = b'?'

unfoldable pub utf8_len : ℕ → ℕ
utf8_len b =
    if ltb b 0x80
    then 1
    else if leb 0xC2 b && leb b 0xDF
    then 2
    else if leb 0xE0 b && leb b 0xEF
    then 3
    else if leb 0xF0 b && leb b 0xF4
    then 4
    else 0

-- `utf8_cont`, for a byte: the two upper bits are 10.
unfoldable pub utf8_cont : ℕ → Bool
utf8_cont b = b / 64 == 2

-- The loop of `utf8_ok`, over as many bytes as it is given.
unfoldable pub all_cont : ℕ → List ℕ → Bool
all_cont zero p = true
all_cont (suc n) [] = false
all_cont (suc n) (b ∷ p) = utf8_cont b && all_cont n p

-- The rest of `utf8_ok` for three bytes and for four; the masked bits of `cp` do not overlap.
unfoldable pub ok_3 : ℕ → ℕ → ℕ → Bool
ok_3 p0 p1 p2 =
    let cp = p0 % 16 * 4096 + p1 % 64 * 64 + p2 % 64 in
    if p0 == 0xE0 && ltb p1 0xA0
    then false
    else if leb 0xD800 cp && leb cp 0xDFFF
    then false
    else true

unfoldable pub ok_4 : ℕ → ℕ → ℕ → ℕ → Bool
ok_4 p0 p1 p2 p3 =
    let cp = p0 % 8 * 262144 + p1 % 64 * 4096 + p2 % 64 * 64 + p3 % 64 in
    if p0 == 0xF0 && ltb p1 0x90
    then false
    else if p0 == 0xF4 && ltb 0x8F p1
    then false
    else leb cp 0x10FFFF

-- `utf8_ok`, of at least `n` bytes.
unfoldable pub utf8_ok : List ℕ → ℕ → Bool
utf8_ok p n =
    if ltb n 1
    then false
    else if not (all_cont (n - 1) (drop 1 p))
    then false
    else if n == 1 || n == 2
    then true
    else if n == 3
    then ok_3 (get_or p 0 0) (get_or p 1 0) (get_or p 2 0)
    else ok_4 (get_or p 0 0) (get_or p 1 0) (get_or p 2 0) (get_or p 3 0)

-- The loop of `skip_partial`: the bytes that are left.
unfoldable pub drop_cont : List ℕ → List ℕ
drop_cont [] = []
drop_cont (b ∷ p) = if utf8_cont b then drop_cont p else b ∷ p

-- `skip_partial`, as the bytes that are left.
unfoldable pub skip_partial : List ℕ → ℕ → List ℕ
skip_partial p file_off = if file_off == 0 then p else drop_cont p

-- A line feed behind a carriage return.
unfoldable pub skip_nl : List ℕ → List ℕ
skip_nl [] = []
skip_nl (b ∷ p) = if b == b'\n' then p else b ∷ p

-- `emit_seq`, with the bytes written and the bytes left in place of the two indices; the first component
-- is its result.
unfoldable pub emit_seq : List ℕ → List ℕ → Bool → Bool × List ℕ × List ℕ
emit_seq out [] file_end = (false, out, [])
emit_seq out (b ∷ p) file_end =
    let n = utf8_len b in
    if leb text_win_max (length out)
    then (false, out, b ∷ p)
    else if b == b'\r'
    then (true, out ++ b'\n' ∷ [], skip_nl p)
    else if n == 0
    then (true, out ++ repl ∷ [], p)
    else if ltb (suc (length p)) n
    then (if file_end then (false, out ++ repl ∷ [], []) else (false, out, b ∷ p))
    else if not (utf8_ok (b ∷ p) n)
    then (true, out ++ repl ∷ [], p)
    else if ltb text_win_max (length out + n)
    then (false, out, b ∷ p)
    else (true, out ++ take n (b ∷ p), drop n (b ∷ p))

-- The loop of `load_window`, on fuel.
unfoldable pub emit_all : ℕ → List ℕ → List ℕ → Bool → List ℕ × List ℕ
emit_all zero out p file_end = (out, p)
emit_all (suc fuel) out [] file_end = (out, [])
emit_all (suc fuel) out (b ∷ p) file_end =
    let (go, o, q) = emit_seq out (b ∷ p) file_end in
    let rest = emit_all fuel o q file_end in
    if leb text_win_max (length out) then (out, b ∷ p) else if go then rest else (o, q)
