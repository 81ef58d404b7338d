-- ===== src/Vfs/Protocol/Bodies.antt =====
-- Each call keeps the protocol while it holds the lock.
use stm32h745_disco.Base.{
  ℕ, zero, suc, Bool, true, false, Option, none, some, List, ◌≡◌, not, ◌||◌, get_or, is_ok,
  Option-cases, inl, inr,
}
use stm32h745_disco.Base.Int.{ℤ}
use stm32h745_disco.Vfs.Fat.{
  map_fr, Host, Vfs, vfs_file_max, vfs_dir_max, mount_unlocked, unmount_unlocked, format_unlocked,
  remount_unlocked,
}
use stm32h745_disco.Vfs.Files.{
  alloc, is_used, slot, mode_of, open_unlocked, read_unlocked, write_unlocked, seek_unlocked,
  close_unlocked,
}
use stm32h745_disco.Vfs.Dirs.{
  is_last, is_skipped, stat_unlocked, opendir_unlocked, next_entry, readdir_unlocked,
  closedir_unlocked, mkdir_unlocked, unlink_unlocked, rename_unlocked,
}
use stm32h745_disco.Vfs.Guarded.{InVolume}
use stm32h745_disco.Vfs.Protocol.{
  Protocol, At, Leaves, by_if, by_ok, first_free, is_used-slot, either, or_not,
}

module _ {H : Type 0} (d : Host H) {P Q : List Bool → List Bool → H → Type 0}
    (k : Protocol d P Q) where
  pub mount_unlocked-Leaves : (w : Vfs H) → At Q w → Leaves Q (mount_unlocked d w)
  unfolding mount_unlocked
  mount_unlocked-Leaves w q =
      let there = k.mount w.host true q in
      by_if w.mounted (λ e. record { left = q })
        (λ e.
          by_ok (is_ok (map_fr (d.f_mount w.host true).0)) (λ f. record { left = there })
            (λ f. record { left = there }))

  pub unmount_unlocked-Leaves : (w : Vfs H) → At Q w → Leaves Q (unmount_unlocked d w)
  unfolding unmount_unlocked
  unmount_unlocked-Leaves w q =
      by_ok w.mounted (λ e. record { left = q }) (λ e. record { left = k.mount w.host false q })

  pub format_unlocked-Leaves : (w : Vfs H) → At Q w → Leaves Q (format_unlocked d w)
  unfolding format_unlocked
  format_unlocked-Leaves w q =
      let h0 = (d.f_mount w.host false).1 in
      let h1 = (d.f_mkfs h0).1 in
      let made = k.mkfs h0 (k.mount w.host false q) in
      let on = k.mount h1 true made in
      by_ok (is_ok (map_fr (d.f_mkfs h0).0)) (λ e. record { left = made })
        (λ e.
          by_ok (is_ok (map_fr (d.f_mount h1 true).0)) (λ f. record { left = on })
            (λ f. record { left = on }))

  pub remount_unlocked-Leaves : (w : Vfs H) → At Q w → Leaves Q (remount_unlocked d w)
  unfolding remount_unlocked
  remount_unlocked-Leaves w q =
      let off = unmount_unlocked-Leaves w q in
      by_if (is_ok (unmount_unlocked d w).0)
        (λ e. mount_unlocked-Leaves (unmount_unlocked d w).1 off.left)
        (λ e. record { left = off.left })

  pub open_unlocked-Leaves :
      (fat : List ℕ) (flags : ℕ)
      → InVolume fat
      → (w : Vfs H) → At Q w
      → Leaves Q (open_unlocked d fat flags w)
  unfolding open_unlocked
  open_unlocked-Leaves fat flags inside w q =
      by_ok w.mounted (λ e. record { left = q })
        (λ e. elim (Option-cases (alloc 0 w.fil_used)) [
          | inl full ↦ rw full record { left = q }
          | inr (i, found) ↦
              let opened =
                k.open_file w.host i fat (mode_of flags) inside (first_free _ _ found) q in
              rw found (
                by_ok (is_ok (map_fr (d.f_open w.host i fat (mode_of flags)).0))
                  (λ f. record { left = rw f at opened }) (λ f. record { left = rw f at opened }))
        ])

  pub read_unlocked-Leaves :
      (fd : ℤ) (has_buf : Bool) (n : ℕ) (w : Vfs H)
      → At Q w
      → Leaves Q (read_unlocked d fd has_buf n w)
  unfolding read_unlocked
  read_unlocked-Leaves fd has_buf n w q =
      by_if (not (is_used vfs_file_max w.fil_used fd) || not has_buf) (λ e. record { left = q })
        (λ e.
          let there =
            k.read w.host (slot fd) n (is_used-slot vfs_file_max w.fil_used fd (or_not _ _ e)) q in
          by_ok (is_ok (map_fr (d.f_read w.host (slot fd) n).0)) (λ f. record { left = there })
            (λ f. record { left = there }))

  pub write_unlocked-Leaves :
      (fd : ℤ) (bytes : Option (List ℕ)) (w : Vfs H)
      → At Q w
      → Leaves Q (write_unlocked d fd bytes w)
  unfolding write_unlocked
  write_unlocked-Leaves fd none w q = record { left = q }
  write_unlocked-Leaves fd (some bytes) w q =
      by_ok (is_used vfs_file_max w.fil_used fd) (λ e. record { left = q })
        (λ e.
          let there =
            k.write w.host (slot fd) bytes (is_used-slot vfs_file_max w.fil_used fd e) q in
          by_ok (is_ok (map_fr (d.f_write w.host (slot fd) bytes).0)) (λ f. record { left = there })
            (λ f. record { left = there }))

  pub seek_unlocked-Leaves :
      (fd : ℤ) (off : ℕ) (w : Vfs H) → At Q w → Leaves Q (seek_unlocked d fd off w)
  unfolding seek_unlocked
  seek_unlocked-Leaves fd off w q =
      by_ok (is_used vfs_file_max w.fil_used fd) (λ e. record { left = q })
        (λ e. record {
          left = k.seek w.host (slot fd) off (is_used-slot vfs_file_max w.fil_used fd e) q;
        })

  pub close_unlocked-Leaves : (fd : ℤ) (w : Vfs H) → At Q w → Leaves Q (close_unlocked d fd w)
  unfolding close_unlocked
  close_unlocked-Leaves fd w q =
      by_ok (is_used vfs_file_max w.fil_used fd) (λ e. record { left = q })
        (λ e. record {
          left = k.close w.host (slot fd) (is_used-slot vfs_file_max w.fil_used fd e) q;
        })

  pub stat_unlocked-Leaves :
      (fat : List ℕ) → InVolume fat → (w : Vfs H) → At Q w → Leaves Q (stat_unlocked d fat w)
  unfolding stat_unlocked
  stat_unlocked-Leaves fat inside w q =
      let there = k.stat w.host fat inside q in
      by_ok w.mounted (λ e. record { left = q })
        (λ e.
          by_ok (is_ok (map_fr (d.f_stat w.host fat).0)) (λ f. record { left = there })
            (λ f. record { left = there }))

  pub opendir_unlocked-Leaves :
      (fat : List ℕ) → InVolume fat → (w : Vfs H) → At Q w → Leaves Q (opendir_unlocked d fat w)
  unfolding opendir_unlocked
  opendir_unlocked-Leaves fat inside w q =
      by_ok w.mounted (λ e. record { left = q })
        (λ e. elim (Option-cases (alloc 0 w.dir_used)) [
          | inl full ↦ rw full record { left = q }
          | inr (i, found) ↦
              let opened = k.open_dir w.host i fat inside (first_free _ _ found) q in
              rw found (
                by_ok (is_ok (map_fr (d.f_opendir w.host i fat).0))
                  (λ f. record { left = rw f at opened }) (λ f. record { left = rw f at opened }))
        ])

  pub next_entry-lem :
      {fs ds : List Bool} (fuel i : ℕ) (h : H)
      → get_or ds i false ≡ true
      → Q fs ds h
      → Q fs ds (next_entry d fuel i h).1
  unfolding next_entry
  next_entry-lem zero i h o q = q
  next_entry-lem {fs = fs} {ds = ds} (suc fuel) i h o q =
      let there = k.read_dir h i o q in
      let rest = next_entry-lem fuel i (d.f_readdir h i).2 o there in
      either (Q fs ds) (not (is_ok (map_fr (d.f_readdir h i).0))) _ _ there (
        either (Q fs ds) (is_last (d.f_readdir h i).1.fname) _ _ there
          (either (Q fs ds) (is_skipped (d.f_readdir h i).1) _ _ rest there))

  pub readdir_unlocked-Leaves :
      (fuel : ℕ) (dir : ℤ) (has_ent : Bool) (w : Vfs H)
      → At Q w
      → Leaves Q (readdir_unlocked d fuel dir has_ent w)
  unfolding readdir_unlocked
  readdir_unlocked-Leaves fuel dir has_ent w q =
      by_if (not (is_used vfs_dir_max w.dir_used dir) || not has_ent) (λ e. record { left = q })
        (λ e. record {
          left =
              next_entry-lem fuel (slot dir) w.host
                (is_used-slot vfs_dir_max w.dir_used dir (or_not _ _ e)) q;
        })

  pub closedir_unlocked-Leaves :
      (dir : ℤ) (w : Vfs H) → At Q w → Leaves Q (closedir_unlocked d dir w)
  unfolding closedir_unlocked
  closedir_unlocked-Leaves dir w q =
      by_ok (is_used vfs_dir_max w.dir_used dir) (λ e. record { left = q })
        (λ e. record {
          left = k.close_dir w.host (slot dir) (is_used-slot vfs_dir_max w.dir_used dir e) q;
        })

  pub mkdir_unlocked-Leaves :
      (fat : List ℕ) → InVolume fat → (w : Vfs H) → At Q w → Leaves Q (mkdir_unlocked d fat w)
  unfolding mkdir_unlocked
  mkdir_unlocked-Leaves fat inside w q =
      by_ok w.mounted (λ e. record { left = q })
        (λ e. record { left = k.mkdir w.host fat inside q })

  pub unlink_unlocked-Leaves :
      (fat : List ℕ) → InVolume fat → (w : Vfs H) → At Q w → Leaves Q (unlink_unlocked d fat w)
  unfolding unlink_unlocked
  unlink_unlocked-Leaves fat inside w q =
      by_ok w.mounted (λ e. record { left = q })
        (λ e. record { left = k.unlink w.host fat inside q })

  pub rename_unlocked-Leaves :
      (from to : List ℕ)
      → InVolume from
      → InVolume to
      → (w : Vfs H) → At Q w
      → Leaves Q (rename_unlocked d from to w)
  unfolding rename_unlocked
  rename_unlocked-Leaves from to inside_from inside_to w q =
      by_ok w.mounted (λ e. record { left = q })
        (λ e. record { left = k.rename w.host from to inside_from inside_to q })
