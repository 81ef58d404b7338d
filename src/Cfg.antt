-- ===== src/Cfg.antt =====
-- The settings and the file that keeps them: firmware/src/svc/cfg.c.

pub mod Laws
pub mod Saved
mod Tests
use stm32h745_disco.Base.{
  ℕ, Bool, true, false, List, [], ◌∷◌, ltb, ◌==◌, if◌then◌else◌, not, ◌&&◌, ◌||◌, length, get_or,
  Err, is_ok, Result, value, error,
}

-- The calls that the settings make of firmware/src/svc/vfs.c, on the one file /user/cfg.bin: whether a
-- volume is mounted; open with flags, which gives a descriptor; write, with the number of bytes written; read of up to a number
-- of bytes; close. `S` is the state of the file system.
pub record Disk (S : Type 0) : Type 0 where
  pub vfs_mounted : S → Bool
  pub vfs_open : S → ℕ → Err × ℕ × S
  pub vfs_write : S → ℕ → List ℕ → Err × ℕ × S
  pub vfs_read : S → ℕ → ℕ → Err × List ℕ × S
  pub vfs_close : S → ℕ → Err × S

-- The variables of cfg.c.
pub record Cfg : Type 0 where
  pub ready : Bool
  pub dirty : Bool
  pub bright : ℕ
  pub vol : ℕ
  pub ch : ℕ
  pub join : ℕ

abbrev pub cfg_size : ℕ
cfg_size = 8

-- `VFS_O_RD`, and `VFS_O_WR | VFS_O_CREAT | VFS_O_TRUNC`.
abbrev pub vfs_o_rd : ℕ
vfs_o_rd = 1

abbrev pub vfs_o_save : ℕ
vfs_o_save = 14

unfoldable pub clamp_u8 : ℕ → ℕ → ℕ → ℕ
clamp_u8 v lo hi = if ltb v lo then lo else if ltb hi v then hi else v

-- `defaults`
unfoldable pub defaults : Cfg → Cfg
defaults c = record { ready = c.ready; dirty = false; bright = 100; vol = 70; ch = 15; join = 60 }

-- `buf` of `persist_save`.
unfoldable pub cfg_bytes : Cfg → List ℕ
cfg_bytes c = b'C' ∷ b'F' ∷ b'G' ∷ b'1' ∷ c.bright ∷ c.vol ∷ c.ch ∷ c.join ∷ []

-- The test of the four magic bytes in `persist_load`.
abbrev pub has_magic : List ℕ → Bool
has_magic buf =
    get_or buf 0 0 == b'C'
    && (get_or buf 1 0 == b'F' && (get_or buf 2 0 == b'G' && get_or buf 3 0 == b'1'))

-- The settings that `persist_load` takes from the bytes of the file.
unfoldable pub loaded : Cfg → List ℕ → Cfg
loaded c buf = record {
  ready = c.ready;
  dirty = false;
  bright = clamp_u8 (get_or buf 4 0) 10 100;
  vol = clamp_u8 (get_or buf 5 0) 0 100;
  ch = clamp_u8 (get_or buf 6 0) 11 26;
  join = clamp_u8 (get_or buf 7 0) 1 254;
}

module _ {S : Type 0} (d : Disk S) where
  -- `persist_save`, which ignores what the close answers.
  unfoldable pub persist_save : Cfg → S → Err × Cfg × S
  persist_save c s =
      let (opened, fd, s1) = d.vfs_open s vfs_o_save in
      let (e, put, s2) = d.vfs_write s1 fd (cfg_bytes c) in
      let (closed, s3) = d.vfs_close s2 fd in
      if not (d.vfs_mounted s)
      then (Err.io, c, s)
      else if not (is_ok opened)
      then (opened, c, s1)
      else if not (is_ok e) || not (put == cfg_size)
      then ((if not (is_ok e) then e else Err.nospc), c, s3)
      else (Err.ok, record c { dirty = false }, s3)

  -- `persist_load`
  unfoldable pub persist_load : Cfg → S → Bool × Cfg × S
  persist_load c s =
      let (opened, fd, s1) = d.vfs_open s vfs_o_rd in
      let (e, buf, s2) = d.vfs_read s1 fd cfg_size in
      let (closed, s3) = d.vfs_close s2 fd in
      if not (d.vfs_mounted s)
      then (false, c, s)
      else if not (is_ok opened)
      then (false, c, s1)
      else if not (is_ok e) || ltb (length buf) cfg_size
      then (false, c, s3)
      else if not (has_magic buf)
      then (false, c, s3)
      else (true, loaded c buf, s3)

  -- `cfg_init`, which answers `ERR_OK` in any case.
  unfoldable pub cfg_init : Cfg → S → Cfg × S
  cfg_init c s =
      let (found, c', s') = persist_load (record (defaults c) { ready = true }) s in (c', s')

  -- `cfg_poll`
  unfoldable pub cfg_poll : Cfg → S → Cfg × S
  cfg_poll c s =
      let (e, c', s') = persist_save c s in if c.ready && c.dirty then (c', s') else (c, s)

  -- `commit`
  unfoldable pub commit : Cfg → S → Err × Cfg × S
  commit c s = persist_save (record c { ready = true; dirty = true }) s

  unfoldable pub cfg_set_brightness : Cfg → S → ℕ → Err × Cfg × S
  cfg_set_brightness c s pct = commit (record c { bright = clamp_u8 pct 10 100 }) s

  unfoldable pub cfg_set_volume : Cfg → S → ℕ → Err × Cfg × S
  cfg_set_volume c s pct = commit (record c { vol = clamp_u8 pct 0 100 }) s

  unfoldable pub cfg_set_zb_channel : Cfg → S → ℕ → Err × Cfg × S
  cfg_set_zb_channel c s ch = commit (record c { ch = clamp_u8 ch 11 26 }) s

  unfoldable pub cfg_set_join_s : Cfg → S → ℕ → Err × Cfg × S
  cfg_set_join_s c s seconds = commit (record c { join = clamp_u8 seconds 1 254 }) s

-- `cfg_reset`
unfoldable pub cfg_reset : Cfg → Cfg
cfg_reset c = record (defaults c) { ready = false }
