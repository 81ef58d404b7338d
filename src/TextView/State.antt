-- ===== src/TextView/State.antt =====
-- The state of text_view.c and its calls.
use stm32h745_disco.Base.{
  ℕ, Bool, true, false, Option, none, some, List, [], ◌∷◌, ◌+◌, ◌-◌, ◌*◌, ◌/◌, ltb, leb, ◌==◌,
  if◌then◌else◌, not, ◌&&◌, ◌||◌, u32, length, take, drop, Err, is_ok,
}
use stm32h745_disco.Base.Int.{ℤ, pos_part, neg_part}
use stm32h745_disco.TextView.{text_win_max, skip_partial, emit_all}

-- The calls made of firmware/src/svc/vfs.c: the kind and size of a file; open with flags, which gives a
-- descriptor; seek; read of up to a number of bytes; close. `S` is the state of the file system.
pub record Files (S : Type 0) : Type 0 where
  pub vfs_stat : S → List ℕ → Err × Bool × ℕ × S
  pub vfs_open : S → List ℕ → ℕ → Err × ℕ × S
  pub vfs_seek : S → ℕ → ℕ → Err × S
  pub vfs_read : S → ℕ → ℕ → Err × List ℕ × S
  pub vfs_close : S → ℕ → S

abbrev pub vfs_name_max : ℕ
vfs_name_max = 64

abbrev pub vfs_path_max : ℕ
vfs_path_max = 256

abbrev pub vfs_o_rd : ℕ
vfs_o_rd = 1

-- The static variables; `text` is what stands in the window before its terminator, and `mem` holds
-- at least `size` bytes where it is used.
pub record TextView : Type 0 where
  pub mem : List ℕ
  pub size : ℕ
  pub off : ℕ
  pub raw : ℕ
  pub gen : ℕ
  pub st : Err
  pub name : List ℕ
  pub path : List ℕ
  pub use_mem : Bool
  pub text : List ℕ

-- `bump`
unfoldable pub bump : TextView → TextView
bump v = record v { gen = u32 (v.gen + 1) }

-- What is behind the last slash, if there is one.
unfoldable pub base_name : List ℕ → List ℕ → List ℕ
base_name last [] = last
base_name last (c ∷ cs) = if c == b'/' then base_name cs cs else base_name last cs

-- `set_name_from_path`
unfoldable pub set_name_from_path : TextView → List ℕ → TextView
set_name_from_path v path = record v { name = take (vfs_name_max - 1) (base_name path path) }

-- The rest of `load_window`, after a read.
unfoldable pub show : TextView → ℕ → List ℕ → TextView
show v off bytes =
    let from = skip_partial bytes off in
    let start = length bytes - length from in
    let (out, left) = emit_all (length from) [] from (leb v.size (u32 (off + length bytes))) in
    bump (record v {
      text = out;
      off = u32 (off + start);
      raw = length from - length left;
      st = Err.ok;
    })

-- `text_view_close`
unfoldable pub text_view_close : TextView → TextView
text_view_close v = bump (record {
  mem = [];
  size = 0;
  off = 0;
  raw = 0;
  gen = v.gen;
  st = Err.ok;
  name = [];
  path = [];
  use_mem = false;
  text = [];
})

module _ {S : Type 0} (d : Files S) where
  -- `read_raw`, with the bytes in place of their number.
  unfoldable pub read_raw : TextView → S → ℕ → ℕ → Err × List ℕ × S
  read_raw v s off want =
      let n = if ltb (v.size - off) want then v.size - off else want in
      let (opened, fd, s1) = d.vfs_open s v.path vfs_o_rd in
      let (sought, s2) = d.vfs_seek s1 fd off in
      let (e, buf, s3) = d.vfs_read s2 fd n in
      if leb v.size off
      then (Err.ok, [], s)
      else if v.use_mem
      then (Err.ok, take n (drop off v.mem), s)
      else if not (is_ok opened)
      then (opened, [], s1)
      else if not (is_ok sought)
      then (sought, [], d.vfs_close s2 fd)
      else (e, buf, d.vfs_close s3 fd)

  -- `load_window`
  unfoldable pub load_window : TextView → S → ℕ → Err × TextView × S
  load_window v s off0 =
      let off = if ltb v.size off0 then v.size else off0 in
      let v1 = record v { text = []; raw = 0 } in
      let (e, bytes, s1) = read_raw v1 s off text_win_max in
      if v.size == 0
      then (Err.ok, bump (record v1 { off = 0; st = Err.ok }), s)
      else if not (is_ok e)
      then (e, bump (record v1 { st = e }), s1)
      else (Err.ok, show v1 off bytes, s1)

  -- `open_common`
  unfoldable pub open_common : TextView → S → ℕ → Err × TextView × S
  open_common v s size = load_window (record v { size = size; off = 0; raw = 0 }) s 0

  -- `text_view_open`, of a path or NULL.
  unfoldable pub text_view_open : TextView → S → Option (List ℕ) → Err × TextView × S
  text_view_open v s none = (Err.inval, record (text_view_close v) { st = Err.inval }, s)
  text_view_open v s (some path) =
      let c = text_view_close v in
      let (e, is_dir, size, s1) = d.vfs_stat s path in
      if length path == 0
      then (Err.inval, record c { st = Err.inval }, s)
      else if not (is_ok e)
      then (e, record c { st = e }, s1)
      else if is_dir
      then (Err.inval, record c { st = Err.inval }, s1)
      else if leb vfs_path_max (length path)
      then (Err.nospc, record c { st = Err.nospc }, s1)
      else open_common (record (set_name_from_path c path) { path = path; use_mem = false }) s1 size

  -- `text_view_open_mem`
  unfoldable pub text_view_open_mem : TextView → S → Option (List ℕ) → ℕ → Err × TextView × S
  text_view_open_mem v s none size =
      let c = text_view_close v in
      if not (size == 0)
      then (Err.inval, record c { st = Err.inval }, s)
      else open_common (record c { name = b'm' ∷ b'e' ∷ b'm' ∷ []; use_mem = true }) s size
  text_view_open_mem v s (some bytes) size =
      open_common
        (record (text_view_close v) { name = b'm' ∷ b'e' ∷ b'm' ∷ []; use_mem = true; mem = bytes })
        s size

  -- `text_view_set_window`
  unfoldable pub text_view_set_window : TextView → S → ℕ → Err × TextView × S
  text_view_set_window v s byte_off =
      if not (is_ok v.st) && (v.size == 0 && (not v.use_mem && length v.path == 0))
      then (Err.inval, v, s)
      else load_window v s byte_off

  -- `text_view_page`
  unfoldable pub text_view_page : TextView → S → ℤ → Err × TextView × S
  text_view_page v s dir =
      let next = u32 (v.off + v.raw) in
      if ltb 0 (pos_part dir)
      then (if v.raw == 0 || leb v.size next then (Err.ok, v, s) else load_window v s next)
      else if ltb 0 (neg_part dir)
      then (if v.off == 0
          then (Err.ok, v, s)
          else load_window v s (if ltb text_win_max v.off then v.off - text_win_max else 0))
      else (Err.ok, v, s)

-- `text_view_progress`
unfoldable pub text_view_progress : TextView → ℕ
text_view_progress v =
    let end = u32 (v.off + v.raw) in
    if v.size == 0 then 100 else if leb v.size end then 100 else v.off * 100 / v.size
