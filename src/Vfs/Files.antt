-- ===== src/Vfs/Files.antt =====
-- The calls of firmware/src/svc/vfs.c on files.
use stm32h745_disco.Base.{
  ℕ, Bool, true, false, Option, none, some, List, [], ◌∷◌, ◌+◌, ◌/◌, ◌%◌, ltb, ◌==◌, if◌then◌else◌,
  not, ◌&&◌, ◌||◌, get_or, set, Err, is_ok, value, error,
}
use stm32h745_disco.Base.Int.{ℤ, pos, negsuc}
use stm32h745_disco.Vfs.Fat.{map_fr, Mode, Host, vfs_file_max, Vfs, to_fat, fat_max, locked}

-- The loop of `alloc_fil` and of `alloc_dir`: the first entry that is not used, from the index `i` on.
unfoldable pub alloc : ℕ → List Bool → Option ℕ
alloc i [] = none
alloc i (used ∷ rest) = if not used then some i else alloc (i + 1) rest

-- A descriptor that is in range and used.
unfoldable pub is_used : ℕ → List Bool → ℤ → Bool
is_used max used (negsuc n) = false
is_used max used (pos n) = ltb n max && get_or used n false

-- The object that a descriptor names.
abbrev pub slot : ℤ → ℕ
slot (pos n) = n
slot (negsuc n) = 0

-- `flags & bit`
abbrev pub has_flag : ℕ → ℕ → Bool
has_flag flags bit = flags / bit % 2 == 1

-- The mode of `vfs_open`, for VFS_O_RD, VFS_O_WR, VFS_O_CREAT and VFS_O_TRUNC.
unfoldable pub mode_of : ℕ → Mode
mode_of flags = record {
  read = has_flag flags 1 || not (has_flag flags 2);
  write = has_flag flags 2;
  open_always = has_flag flags 4;
  create_always = has_flag flags 8;
}

module _ {H : Type 0} (d : Host H) where
  -- `vfs_open` under the lock.
  unfoldable pub open_unlocked : List ℕ → ℕ → Vfs H → (Err × ℤ) × Vfs H
  open_unlocked fat flags w =
      if not w.mounted then ((Err.io, negsuc 0), w) else elim (alloc 0 w.fil_used) [
        | none ↦ ((Err.busy, negsuc 0), w)
        | some i ↦
            let (r, h) = d.f_open w.host i fat (mode_of flags) in
            if not (is_ok (map_fr r))
            then ((map_fr r, negsuc 0), record w { host = h })
            else ((Err.ok, pos i), record w { fil_used = set w.fil_used i true; host = h })
      ]

  -- `vfs_open`, which gives an error and the descriptor.
  unfoldable pub vfs_open : Vfs H → List ℕ → ℕ → (Err × ℤ) × Vfs H
  vfs_open w path flags = elim (to_fat path fat_max) [
    | error e ↦ ((e, negsuc 0), w)
    | value fat ↦ locked d (λ e. (e, negsuc 0)) (open_unlocked fat flags) w
  ]

  -- `vfs_read` of up to `n` bytes into a buffer that may be NULL.
  unfoldable pub read_unlocked : ℤ → Bool → ℕ → Vfs H → (Err × List ℕ) × Vfs H
  read_unlocked fd has_buf n w =
      let (r, bytes, h) = d.f_read w.host (slot fd) n in
      if not (is_used vfs_file_max w.fil_used fd) || not has_buf
      then ((Err.inval, []), w)
      else if not (is_ok (map_fr r))
      then ((Err.io, []), record w { host = h })
      else ((Err.ok, bytes), record w { host = h })

  unfoldable pub vfs_read : Vfs H → ℤ → Bool → ℕ → (Err × List ℕ) × Vfs H
  vfs_read w fd has_buf n = locked d (λ e. (e, [])) (read_unlocked fd has_buf n) w

  -- `vfs_write` of bytes that may be NULL, which gives the number that was written.
  unfoldable pub write_unlocked : ℤ → Option (List ℕ) → Vfs H → (Err × ℕ) × Vfs H
  write_unlocked fd none w = ((Err.inval, 0), w)
  write_unlocked fd (some bytes) w =
      let (r, put, h) = d.f_write w.host (slot fd) bytes in
      if not (is_used vfs_file_max w.fil_used fd)
      then ((Err.inval, 0), w)
      else if not (is_ok (map_fr r))
      then ((Err.io, 0), record w { host = h })
      else ((Err.ok, put), record w { host = h })

  unfoldable pub vfs_write : Vfs H → ℤ → Option (List ℕ) → (Err × ℕ) × Vfs H
  vfs_write w fd bytes = locked d (λ e. (e, 0)) (write_unlocked fd bytes) w

  -- `vfs_seek`
  unfoldable pub seek_unlocked : ℤ → ℕ → Vfs H → Err × Vfs H
  seek_unlocked fd off w =
      let (r, h) = d.f_lseek w.host (slot fd) off in
      if not (is_used vfs_file_max w.fil_used fd)
      then (Err.inval, w)
      else (map_fr r, record w { host = h })

  unfoldable pub vfs_seek : Vfs H → ℤ → ℕ → Err × Vfs H
  vfs_seek w fd off = locked d (λ e. e) (seek_unlocked fd off) w

  -- `vfs_close`, which frees the entry whatever FatFs answers.
  unfoldable pub close_unlocked : ℤ → Vfs H → Err × Vfs H
  close_unlocked fd w =
      let (r, h) = d.f_close w.host (slot fd) in
      if not (is_used vfs_file_max w.fil_used fd)
      then (Err.inval, w)
      else (map_fr r, record w { fil_used = set w.fil_used (slot fd) false; host = h })

  unfoldable pub vfs_close : Vfs H → ℤ → Err × Vfs H
  vfs_close w fd = locked d (λ e. e) (close_unlocked fd) w
