-- ===== src/Vfs/Protocol/Calls.antt =====
-- Any sequence of calls of firmware/src/svc/vfs.c keeps the protocol.
use stm32h745_disco.Base.{ℕ, Bool, Option, List, [], ◌∷◌, Result-cases, inl, inr}
use stm32h745_disco.Base.Int.{ℤ}
use stm32h745_disco.Vfs.Fat.{
  Host, Vfs, to_fat, fat_max, vfs_format, vfs_mount, vfs_unmount, vfs_remount, vfs_mounted,
  vfs_formatted_on_mount,
}
use stm32h745_disco.Vfs.Files.{vfs_open, vfs_read, vfs_write, vfs_seek, vfs_close}
use stm32h745_disco.Vfs.Dirs.{
  vfs_stat, vfs_opendir, vfs_readdir, vfs_closedir, vfs_mkdir, vfs_unlink, vfs_rename,
}
use stm32h745_disco.Vfs.Guarded.{to_fat-InVolume}
use stm32h745_disco.Vfs.Protocol.{Protocol, At, locked-Leaves}
use stm32h745_disco.Vfs.Protocol.Bodies.{
  mount_unlocked-Leaves, unmount_unlocked-Leaves, format_unlocked-Leaves, remount_unlocked-Leaves,
  open_unlocked-Leaves, read_unlocked-Leaves, write_unlocked-Leaves, seek_unlocked-Leaves,
  close_unlocked-Leaves, stat_unlocked-Leaves, opendir_unlocked-Leaves, readdir_unlocked-Leaves,
  closedir_unlocked-Leaves, mkdir_unlocked-Leaves, unlink_unlocked-Leaves, rename_unlocked-Leaves,
}

-- The calls of the module.
pub data Call : Type 0 where
  vfs_format_call vfs_mount_call vfs_unmount_call vfs_remount_call vfs_mounted_call
        vfs_formatted_on_mount_call :
      Call
  vfs_open_call : List ℕ → ℕ → Call
  vfs_read_call : ℤ → Bool → ℕ → Call
  vfs_write_call : ℤ → Option (List ℕ) → Call
  vfs_seek_call : ℤ → ℕ → Call
  vfs_close_call : ℤ → Call
  vfs_stat_call : List ℕ → Call
  vfs_opendir_call : List ℕ → Call
  vfs_readdir_call : ℕ → ℤ → Bool → Call
  vfs_closedir_call : ℤ → Call
  vfs_mkdir_call vfs_unlink_call : List ℕ → Call
  vfs_rename_call : List ℕ → List ℕ → Call

unfoldable pub after : {H : Type 0} → Host H → Call → Vfs H → Vfs H
after d Call.vfs_format_call w = (vfs_format d w).1
after d Call.vfs_mount_call w = (vfs_mount d w).1
after d Call.vfs_unmount_call w = (vfs_unmount d w).1
after d Call.vfs_remount_call w = (vfs_remount d w).1
after d Call.vfs_mounted_call w = (vfs_mounted d w).1
after d Call.vfs_formatted_on_mount_call w = (vfs_formatted_on_mount d w).1
after d (Call.vfs_open_call path flags) w = (vfs_open d w path flags).1
after d (Call.vfs_read_call fd has_buf n) w = (vfs_read d w fd has_buf n).1
after d (Call.vfs_write_call fd bytes) w = (vfs_write d w fd bytes).1
after d (Call.vfs_seek_call fd off) w = (vfs_seek d w fd off).1
after d (Call.vfs_close_call fd) w = (vfs_close d w fd).1
after d (Call.vfs_stat_call path) w = (vfs_stat d w path).1
after d (Call.vfs_opendir_call path) w = (vfs_opendir d w path).1
after d (Call.vfs_readdir_call fuel dir has_ent) w = (vfs_readdir d fuel w dir has_ent).1
after d (Call.vfs_closedir_call dir) w = (vfs_closedir d w dir).1
after d (Call.vfs_mkdir_call path) w = (vfs_mkdir d w path).1
after d (Call.vfs_unlink_call path) w = (vfs_unlink d w path).1
after d (Call.vfs_rename_call from to) w = (vfs_rename d w from to).1

unfoldable pub after_all : {H : Type 0} → Host H → List Call → Vfs H → Vfs H
after_all d [] w = w
after_all d (c ∷ cs) w = after_all d cs (after d c w)

module _ {H : Type 0} (d : Host H) {P Q : List Bool → List Bool → H → Type 0}
    (k : Protocol d P Q) where
  vfs_open-Leaves :
      (path : List ℕ) (flags : ℕ) (w : Vfs H) → At P w → At P (vfs_open d w path flags).1
  unfolding vfs_open
  vfs_open-Leaves path flags w p = elim (Result-cases (to_fat path fat_max)) [
    | inl (fat, e) ↦
        let inside = to_fat-InVolume path fat e in
        rw (vfs_open, e)
          (locked-Leaves d k _ _ w (open_unlocked-Leaves d k fat flags inside) p).left
    | inr (err, e) ↦ rw (vfs_open, e) p
  ]

  vfs_stat-Leaves : (path : List ℕ) (w : Vfs H) → At P w → At P (vfs_stat d w path).1
  unfolding vfs_stat
  vfs_stat-Leaves path w p = elim (Result-cases (to_fat path fat_max)) [
    | inl (fat, e) ↦
        let inside = to_fat-InVolume path fat e in
        rw (vfs_stat, e) (locked-Leaves d k _ _ w (stat_unlocked-Leaves d k fat inside) p).left
    | inr (err, e) ↦ rw (vfs_stat, e) p
  ]

  vfs_opendir-Leaves : (path : List ℕ) (w : Vfs H) → At P w → At P (vfs_opendir d w path).1
  unfolding vfs_opendir
  vfs_opendir-Leaves path w p = elim (Result-cases (to_fat path fat_max)) [
    | inl (fat, e) ↦
        let inside = to_fat-InVolume path fat e in
        rw (vfs_opendir, e)
          (locked-Leaves d k _ _ w (opendir_unlocked-Leaves d k fat inside) p).left
    | inr (err, e) ↦ rw (vfs_opendir, e) p
  ]

  vfs_mkdir-Leaves : (path : List ℕ) (w : Vfs H) → At P w → At P (vfs_mkdir d w path).1
  unfolding vfs_mkdir
  vfs_mkdir-Leaves path w p = elim (Result-cases (to_fat path fat_max)) [
    | inl (fat, e) ↦
        let inside = to_fat-InVolume path fat e in
        rw (vfs_mkdir, e) (locked-Leaves d k _ _ w (mkdir_unlocked-Leaves d k fat inside) p).left
    | inr (err, e) ↦ rw (vfs_mkdir, e) p
  ]

  vfs_unlink-Leaves : (path : List ℕ) (w : Vfs H) → At P w → At P (vfs_unlink d w path).1
  unfolding vfs_unlink
  vfs_unlink-Leaves path w p = elim (Result-cases (to_fat path fat_max)) [
    | inl (fat, e) ↦
        let inside = to_fat-InVolume path fat e in
        rw (vfs_unlink, e) (locked-Leaves d k _ _ w (unlink_unlocked-Leaves d k fat inside) p).left
    | inr (err, e) ↦ rw (vfs_unlink, e) p
  ]

  vfs_rename-Leaves : (from to : List ℕ) (w : Vfs H) → At P w → At P (vfs_rename d w from to).1
  unfolding vfs_rename
  vfs_rename-Leaves from to w p = elim (Result-cases (to_fat from fat_max)) [
    | inl (fat, e) ↦ elim (Result-cases (to_fat to fat_max)) [
      | inl (fat_to, f) ↦
          let inside = to_fat-InVolume from fat e in
          let inside_to = to_fat-InVolume to fat_to f in
          rw (vfs_rename, e, f)
            (locked-Leaves d k _ _ w (rename_unlocked-Leaves d k fat fat_to inside inside_to)
              p).left
      | inr (err, f) ↦ rw (vfs_rename, e, f) p
    ]
    | inr (err, e) ↦ rw (vfs_rename, e) p
  ]

  after-Leaves : (c : Call) (w : Vfs H) → At P w → At P (after d c w)
  unfolding after vfs_format vfs_mount vfs_unmount vfs_remount vfs_mounted vfs_formatted_on_mount
      vfs_read vfs_write vfs_seek vfs_close vfs_readdir vfs_closedir
  after-Leaves Call.vfs_format_call w p =
      (locked-Leaves d k _ _ w (format_unlocked-Leaves d k) p).left
  after-Leaves Call.vfs_mount_call w p =
      (locked-Leaves d k _ _ w (mount_unlocked-Leaves d k) p).left
  after-Leaves Call.vfs_unmount_call w p =
      (locked-Leaves d k _ _ w (unmount_unlocked-Leaves d k) p).left
  after-Leaves Call.vfs_remount_call w p =
      (locked-Leaves d k _ _ w (remount_unlocked-Leaves d k) p).left
  after-Leaves Call.vfs_mounted_call w p =
      (locked-Leaves d k _ _ w (λ v q. record { left = q }) p).left
  after-Leaves Call.vfs_formatted_on_mount_call w p =
      (locked-Leaves d k _ _ w (λ v q. record { left = q }) p).left
  after-Leaves (Call.vfs_open_call path flags) w p = vfs_open-Leaves path flags w p
  after-Leaves (Call.vfs_read_call fd has_buf n) w p =
      (locked-Leaves d k _ _ w (read_unlocked-Leaves d k fd has_buf n) p).left
  after-Leaves (Call.vfs_write_call fd bytes) w p =
      (locked-Leaves d k _ _ w (write_unlocked-Leaves d k fd bytes) p).left
  after-Leaves (Call.vfs_seek_call fd off) w p =
      (locked-Leaves d k _ _ w (seek_unlocked-Leaves d k fd off) p).left
  after-Leaves (Call.vfs_close_call fd) w p =
      (locked-Leaves d k _ _ w (close_unlocked-Leaves d k fd) p).left
  after-Leaves (Call.vfs_stat_call path) w p = vfs_stat-Leaves path w p
  after-Leaves (Call.vfs_opendir_call path) w p = vfs_opendir-Leaves path w p
  after-Leaves (Call.vfs_readdir_call fuel dir has_ent) w p =
      (locked-Leaves d k _ _ w (readdir_unlocked-Leaves d k fuel dir has_ent) p).left
  after-Leaves (Call.vfs_closedir_call dir) w p =
      (locked-Leaves d k _ _ w (closedir_unlocked-Leaves d k dir) p).left
  after-Leaves (Call.vfs_mkdir_call path) w p = vfs_mkdir-Leaves path w p
  after-Leaves (Call.vfs_unlink_call path) w p = vfs_unlink-Leaves path w p
  after-Leaves (Call.vfs_rename_call from to) w p = vfs_rename-Leaves from to w p

  -- Let `P` and `Q` be properties of the tables of open files and directories and of the state of the called
  -- code that every call which the protocol allows keeps: `P` between calls, `Q` where the lock is
  -- held or the scheduler does not run yet. FatFs may be called at `Q` alone, by paths inside the volume, on objects that
  -- the table has as open (also after the volume was taken off or formatted), to open only one that it has not.
  -- Then any sequence of calls of the module, with whatever arguments and results, from a state with `P` ends in one
  -- with `P`.
  pub after_all-Protocol : (cs : List Call) (w : Vfs H) → At P w → At P (after_all d cs w)
  unfolding after_all
  after_all-Protocol [] w p = p
  after_all-Protocol (c ∷ cs) w p = after_all-Protocol cs (after d c w) (after-Leaves c w p)
