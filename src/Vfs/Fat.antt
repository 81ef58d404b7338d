-- ===== src/Vfs/Fat.antt =====
-- The volume of firmware/src/svc/vfs.c: its lock, its mounting, and the way from a path of the jail to one of FatFs.
use stm32h745_disco.Base.{
  ℕ, Bool, true, false, List, ◌∷◌, ◌+◌, ltb, if◌then◌else◌, not, length, Err, is_ok, Result, value,
  error, ◌>>=◌,
}
use stm32h745_disco.Vfs.Path.{normalize, jail_rel, vfs_path_max}

-- `FRESULT` of FatFs, by the names that `map_fr` uses.
pub data Fr : Type 0 where
  fr_ok fr_no_file fr_no_path fr_denied fr_exist fr_write_protected fr_invalid_name
        fr_invalid_object fr_invalid_parameter fr_not_enough_core fr_too_many_open_files fr_locked
        fr_timeout fr_no_filesystem fr_mkfs_aborted fr_other :
      Fr

-- `map_fr`
unfoldable pub map_fr : Fr → Err
map_fr Fr.fr_ok = Err.ok
map_fr Fr.fr_no_file = Err.noent
map_fr Fr.fr_no_path = Err.noent
map_fr Fr.fr_denied = Err.denied
map_fr Fr.fr_exist = Err.denied
map_fr Fr.fr_write_protected = Err.denied
map_fr Fr.fr_invalid_name = Err.inval
map_fr Fr.fr_invalid_object = Err.inval
map_fr Fr.fr_invalid_parameter = Err.inval
map_fr Fr.fr_not_enough_core = Err.nomem
map_fr Fr.fr_too_many_open_files = Err.busy
map_fr Fr.fr_locked = Err.busy
map_fr Fr.fr_timeout = Err.timeout
map_fr Fr.fr_no_filesystem = Err.corrupt
map_fr Fr.fr_mkfs_aborted = Err.io
map_fr Fr.fr_other = Err.io

-- The mode of `f_open`: FA_READ, FA_WRITE, FA_OPEN_ALWAYS, FA_CREATE_ALWAYS.
pub record Mode : Type 0 where
  pub read : Bool
  pub write : Bool
  pub open_always : Bool
  pub create_always : Bool

-- `FILINFO`
pub record Info : Type 0 where
  pub fname : List ℕ
  pub fattrib : ℕ
  pub fsize : ℕ

-- The calls of FatFs and of the operating system, over any state of both. A file or directory
-- object is named by its index in `g_fil` or `g_dir`; `f_mount` is told whether it attaches the volume or
-- takes it off; `osal_mutex_made` says that `g_lock` is not NULL.
pub record Host (H : Type 0) : Type 0 where
  pub osal_scheduler_running : H → Bool
  pub osal_mutex_ensure : H → Err × H
  pub osal_mutex_made : H → Bool
  pub osal_mutex_lock : H → Err × H
  pub osal_mutex_unlock : H → Err × H
  pub f_mount : H → Bool → Fr × H
  pub f_mkfs : H → Fr × H
  pub f_open : H → ℕ → List ℕ → Mode → Fr × H
  pub f_read : H → ℕ → ℕ → Fr × List ℕ × H
  pub f_write : H → ℕ → List ℕ → Fr × ℕ × H
  pub f_lseek : H → ℕ → ℕ → Fr × H
  pub f_close : H → ℕ → Fr × H
  pub f_stat : H → List ℕ → Fr × Info × H
  pub f_opendir : H → ℕ → List ℕ → Fr × H
  pub f_readdir : H → ℕ → Fr × Info × H
  pub f_closedir : H → ℕ → Fr × H
  pub f_mkdir : H → List ℕ → Fr × H
  pub f_unlink : H → List ℕ → Fr × H
  pub f_rename : H → List ℕ → List ℕ → Fr × H

abbrev pub vfs_file_max : ℕ
vfs_file_max = 4

abbrev pub vfs_dir_max : ℕ
vfs_dir_max = 2

-- The static variables, and the state of what is called.
pub record Vfs (H : Type 0) : Type 0 where
  pub mounted : Bool
  pub did_format : Bool
  pub fil_used : List Bool
  pub dir_used : List Bool
  pub host : H

-- `to_fat` into a buffer of `fat_sz` bytes: a drive number in front of the path below the jail.
unfoldable pub to_fat : List ℕ → ℕ → Result (List ℕ)
to_fat path fat_sz = do
  norm ← normalize path vfs_path_max
  rel ← jail_rel norm vfs_path_max
  if ltb fat_sz (length rel + 3) then error Err.nospc else value (b'0' ∷ b':' ∷ rel)

abbrev pub fat_max : ℕ
fat_max = vfs_path_max + 4

module _ {H : Type 0} (d : Host H) where
  -- `vfs_lock`
  unfoldable pub vfs_lock : Vfs H → Err × Vfs H
  vfs_lock w =
      let (e, h) = d.osal_mutex_ensure w.host in
      let (l, h2) = d.osal_mutex_lock h in
      if not (d.osal_scheduler_running w.host)
      then (Err.ok, w)
      else if not (is_ok e)
      then (e, record w { host = h })
      else if not (d.osal_mutex_made h)
      then (Err.io, record w { host = h })
      else (l, record w { host = h2 })

  -- `vfs_unlock`
  unfoldable pub vfs_unlock : Vfs H → Vfs H
  vfs_unlock w =
      if not (d.osal_mutex_made w.host)
      then w
      else record w { host = (d.osal_mutex_unlock w.host).1 }

  -- What every call does: it returns where the lock fails, and each of its returns after that stands behind
  -- `vfs_unlock`.
  unfoldable pub locked : {R : Type 0} → (Err → R) → (Vfs H → R × Vfs H) → Vfs H → R × Vfs H
  locked fail body w =
      let (e, w1) = vfs_lock w in
      let (r, w2) = body w1 in if not (is_ok e) then (fail e, w1) else (r, vfs_unlock w2)

  -- `mount_unlocked`
  unfoldable pub mount_unlocked : Vfs H → Err × Vfs H
  mount_unlocked w =
      let (r, h) = d.f_mount w.host true in
      let off = record w { did_format = false; host = h } in
      if w.mounted
      then (Err.ok, w)
      else if not (is_ok (map_fr r))
      then (map_fr r, off)
      else (Err.ok, record off { mounted = true })

  -- `unmount_unlocked`
  unfoldable pub unmount_unlocked : Vfs H → Err × Vfs H
  unmount_unlocked w =
      let (r, h) = d.f_mount w.host false in
      if not w.mounted then (Err.ok, w) else (map_fr r, record w { mounted = false; host = h })

  -- `format_unlocked`
  unfoldable pub format_unlocked : Vfs H → Err × Vfs H
  format_unlocked w =
      let (r0, h0) = d.f_mount w.host false in
      let (r1, h1) = d.f_mkfs h0 in
      let (r2, h2) = d.f_mount h1 true in
      let off = record w { mounted = false; host = h1 } in
      if not (is_ok (map_fr r1))
      then (map_fr r1, off)
      else if not (is_ok (map_fr r2))
      then (map_fr r2, record off { host = h2 })
      else (Err.ok, record off { mounted = true; did_format = true; host = h2 })

  unfoldable pub vfs_format : Vfs H → Err × Vfs H
  vfs_format w = locked (λ e. e) format_unlocked w

  unfoldable pub vfs_mount : Vfs H → Err × Vfs H
  vfs_mount w = locked (λ e. e) mount_unlocked w

  unfoldable pub vfs_unmount : Vfs H → Err × Vfs H
  vfs_unmount w = locked (λ e. e) unmount_unlocked w

  -- `vfs_remount`
  unfoldable pub remount_unlocked : Vfs H → Err × Vfs H
  remount_unlocked w =
      let (e, w1) = unmount_unlocked w in if is_ok e then mount_unlocked w1 else (e, w1)

  unfoldable pub vfs_remount : Vfs H → Err × Vfs H
  vfs_remount w = locked (λ e. e) remount_unlocked w

  unfoldable pub vfs_mounted : Vfs H → Bool × Vfs H
  vfs_mounted w = locked (λ e. false) (λ v. (v.mounted, v)) w

  unfoldable pub vfs_formatted_on_mount : Vfs H → Bool × Vfs H
  vfs_formatted_on_mount w = locked (λ e. false) (λ v. (v.did_format, v)) w
