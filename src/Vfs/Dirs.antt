-- ===== src/Vfs/Dirs.antt =====
-- The calls of firmware/src/svc/vfs.c on directories and on names.
use stm32h745_disco.Base.{
  ℕ, zero, suc, Bool, true, false, Option, none, some, List, [], ◌∷◌, ◌/◌, ◌%◌, ◌-◌, ◌==◌,
  if◌then◌else◌, not, ◌||◌, set, take, Err, is_ok, value, error,
}
use stm32h745_disco.Base.Int.{ℤ, pos, negsuc}
use stm32h745_disco.Vfs.Fat.{map_fr, Info, Host, vfs_dir_max, Vfs, to_fat, fat_max, locked}
use stm32h745_disco.Vfs.Files.{alloc, is_used, slot}

-- `vfs_stat_t` and `vfs_dirent_t`
pub record Stat : Type 0 where
  pub is_dir : Bool
  pub size : ℕ

pub record Dirent : Type 0 where
  pub name : List ℕ
  pub is_dir : Bool
  pub size : ℕ

abbrev pub vfs_name_max : ℕ
vfs_name_max = 64

-- `info.fattrib & AM_DIR`
abbrev pub am_dir : Info → Bool
am_dir i = i.fattrib / 16 % 2 == 1

abbrev pub no_stat : Stat
no_stat = record { is_dir = false; size = 0 }

abbrev pub no_dirent : Dirent
no_dirent = record { name = []; is_dir = false; size = 0 }

abbrev pub dirent_of : Info → Dirent
dirent_of i = record { name = take (vfs_name_max - 1) i.fname; is_dir = am_dir i; size = i.fsize }

-- The end of a directory.
abbrev pub is_last : List ℕ → Bool
is_last [] = true
is_last (c ∷ cs) = c == 0xFF

-- A volume label or a part of a long name.
abbrev pub is_skipped : Info → Bool
is_skipped i = i.fattrib / 8 % 2 == 1 || i.fattrib % 16 == 15

module _ {H : Type 0} (d : Host H) where
  -- `vfs_stat`
  unfoldable pub stat_unlocked : List ℕ → Vfs H → (Err × Stat) × Vfs H
  stat_unlocked fat w =
      let (r, info, h) = d.f_stat w.host fat in
      if not w.mounted
      then ((Err.io, no_stat), w)
      else if not (is_ok (map_fr r))
      then ((map_fr r, no_stat), record w { host = h })
      else ((Err.ok, record { is_dir = am_dir info; size = info.fsize }), record w { host = h })

  unfoldable pub vfs_stat : Vfs H → List ℕ → (Err × Stat) × Vfs H
  vfs_stat w path = elim (to_fat path fat_max) [
    | error e ↦ ((e, no_stat), w)
    | value fat ↦ locked d (λ e. (e, no_stat)) (stat_unlocked fat) w
  ]

  -- `vfs_opendir`
  unfoldable pub opendir_unlocked : List ℕ → Vfs H → (Err × ℤ) × Vfs H
  opendir_unlocked fat w =
      if not w.mounted then ((Err.io, negsuc 0), w) else elim (alloc 0 w.dir_used) [
        | none ↦ ((Err.busy, negsuc 0), w)
        | some i ↦
            let (r, h) = d.f_opendir w.host i fat in
            if not (is_ok (map_fr r))
            then ((map_fr r, negsuc 0), record w { host = h })
            else ((Err.ok, pos i), record w { dir_used = set w.dir_used i true; host = h })
      ]

  unfoldable pub vfs_opendir : Vfs H → List ℕ → (Err × ℤ) × Vfs H
  vfs_opendir w path = elim (to_fat path fat_max) [
    | error e ↦ ((e, negsuc 0), w)
    | value fat ↦ locked d (λ e. (e, negsuc 0)) (opendir_unlocked fat) w
  ]

  -- The loop of `vfs_readdir`, on fuel, which runs out at `none`.
  unfoldable pub next_entry : ℕ → ℕ → H → Option (Err × Dirent) × H
  next_entry zero i h = (none, h)
  next_entry (suc fuel) i h =
      let (r, info, h1) = d.f_readdir h i in
      let rest = next_entry fuel i h1 in
      if not (is_ok (map_fr r))
      then (some (map_fr r, no_dirent), h1)
      else if is_last info.fname
      then (some (Err.noent, no_dirent), h1)
      else if is_skipped info
      then rest
      else (some (Err.ok, dirent_of info), h1)

  -- `vfs_readdir` into an entry that may be NULL.
  unfoldable pub readdir_unlocked : ℕ → ℤ → Bool → Vfs H → Option (Err × Dirent) × Vfs H
  readdir_unlocked fuel dir has_ent w =
      let (r, h) = next_entry fuel (slot dir) w.host in
      if not (is_used vfs_dir_max w.dir_used dir) || not has_ent
      then (some (Err.inval, no_dirent), w)
      else (r, record w { host = h })

  unfoldable pub vfs_readdir : ℕ → Vfs H → ℤ → Bool → Option (Err × Dirent) × Vfs H
  vfs_readdir fuel w dir has_ent =
      locked d (λ e. some (e, no_dirent)) (readdir_unlocked fuel dir has_ent) w

  -- `vfs_closedir`
  unfoldable pub closedir_unlocked : ℤ → Vfs H → Err × Vfs H
  closedir_unlocked dir w =
      let (r, h) = d.f_closedir w.host (slot dir) in
      if not (is_used vfs_dir_max w.dir_used dir)
      then (Err.inval, w)
      else (map_fr r, record w { dir_used = set w.dir_used (slot dir) false; host = h })

  unfoldable pub vfs_closedir : Vfs H → ℤ → Err × Vfs H
  vfs_closedir w dir = locked d (λ e. e) (closedir_unlocked dir) w

  -- `vfs_mkdir`
  unfoldable pub mkdir_unlocked : List ℕ → Vfs H → Err × Vfs H
  mkdir_unlocked fat w =
      let (r, h) = d.f_mkdir w.host fat in
      if not w.mounted then (Err.io, w) else (map_fr r, record w { host = h })

  unfoldable pub vfs_mkdir : Vfs H → List ℕ → Err × Vfs H
  vfs_mkdir w path = elim (to_fat path fat_max) [
    | error e ↦ (e, w)
    | value fat ↦ locked d (λ e. e) (mkdir_unlocked fat) w
  ]

  -- `vfs_unlink`
  unfoldable pub unlink_unlocked : List ℕ → Vfs H → Err × Vfs H
  unlink_unlocked fat w =
      let (r, h) = d.f_unlink w.host fat in
      if not w.mounted then (Err.io, w) else (map_fr r, record w { host = h })

  unfoldable pub vfs_unlink : Vfs H → List ℕ → Err × Vfs H
  vfs_unlink w path = elim (to_fat path fat_max) [
    | error e ↦ (e, w)
    | value fat ↦ locked d (λ e. e) (unlink_unlocked fat) w
  ]

  -- `vfs_rename`
  unfoldable pub rename_unlocked : List ℕ → List ℕ → Vfs H → Err × Vfs H
  rename_unlocked fat_from fat_to w =
      let (r, h) = d.f_rename w.host fat_from fat_to in
      if not w.mounted then (Err.io, w) else (map_fr r, record w { host = h })

  unfoldable pub vfs_rename : Vfs H → List ℕ → List ℕ → Err × Vfs H
  vfs_rename w from to = elim (to_fat from fat_max) [
    | error e ↦ (e, w)
    | value fat_from ↦ elim (to_fat to fat_max) [
      | error e ↦ (e, w)
      | value fat_to ↦ locked d (λ e. e) (rename_unlocked fat_from fat_to) w
    ]
  ]
