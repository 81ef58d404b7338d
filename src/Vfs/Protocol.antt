-- ===== src/Vfs/Protocol.antt =====
-- The protocol by which FatFs is used, and what the lock keeps of it.
pub mod Bodies
pub mod Calls
mod Watched
mod Tests
use stm32h745_disco.Base.{
  ℕ, zero, suc, Bool, true, false, Option, none, some, List, [], ◌∷◌, ◌+◌, ◌≡◌, ◌<◌, refl, sym, ap,
  subst, ◌∙◌, arith, ltb, ◌==◌, if◌then◌else◌, not, ◌&&◌, ◌||◌, length, get_or, set, Err, is_ok,
  Result, value, error, Result-cases, Bool-cases, Option-cases, inl, inr,
}
use mathlib.Core.Option.{some_inj}
use stm32h745_disco.Base.Int.{ℤ, pos, negsuc}
use stm32h745_disco.Vfs.Fat.{
  Fr, map_fr, Mode, Info, Host, Vfs, to_fat, fat_max, vfs_file_max, vfs_dir_max, vfs_lock,
  vfs_unlock, locked, mount_unlocked, unmount_unlocked, format_unlocked, remount_unlocked,
  vfs_format, vfs_mount, vfs_unmount, vfs_remount, vfs_mounted,
}
use stm32h745_disco.Vfs.Files.{
  alloc, is_used, slot, mode_of, open_unlocked, vfs_open, read_unlocked, vfs_read, write_unlocked,
  vfs_write, seek_unlocked, vfs_seek, close_unlocked, vfs_close,
}
use stm32h745_disco.Vfs.Dirs.{
  is_last, is_skipped, stat_unlocked, vfs_stat, opendir_unlocked, vfs_opendir, next_entry,
  readdir_unlocked, vfs_readdir, closedir_unlocked, vfs_closedir, mkdir_unlocked, vfs_mkdir,
  unlink_unlocked, vfs_unlink, rename_unlocked, vfs_rename,
}
use stm32h745_disco.Vfs.Guarded.{InVolume, to_fat-InVolume}

-- Properties of the files and directories that the tables have as open and of the called state: `P` holds between
-- calls, and `Q` where FatFs may be called. `Q` comes from `P` in two ways: by getting the lock, which may be
-- relied on once the scheduler runs, or while it does not run yet, when start-up is the only task (`boot`).
-- A property may fail if FatFs is called elsewhere, with a path outside its volume, on an object that was not opened or has been
-- closed since, or to open one that is open: each law has what it may rely on. Taking the volume off or
-- formatting it closes no object; what FatFs answers to one that was opened before is up to it.
pub record Protocol {H : Type 0} (d : Host H) (P Q : List Bool → List Bool → H → Type 0)
    : Type 0 where
  pub boot :
      {fs ds : List Bool} (h : H) → P fs ds h → d.osal_scheduler_running h ≡ false → Q fs ds h
  pub ensure :
      {fs ds : List Bool} (h : H)
      → P fs ds h
      → d.osal_scheduler_running h ≡ true
      → P fs ds (d.osal_mutex_ensure h).1
  pub lock :
      {fs ds : List Bool} (h : H)
      → P fs ds h
      → d.osal_mutex_made h ≡ true
      → is_ok (d.osal_mutex_lock h).0 ≡ true
      → Q fs ds (d.osal_mutex_lock h).1
  pub no_lock :
      {fs ds : List Bool} (h : H)
      → P fs ds h
      → is_ok (d.osal_mutex_lock h).0 ≡ false
      → P fs ds (d.osal_mutex_lock h).1
  pub unlock :
      {fs ds : List Bool} (h : H)
      → Q fs ds h
      → d.osal_mutex_made h ≡ true
      → P fs ds (d.osal_mutex_unlock h).1
  pub no_unlock : {fs ds : List Bool} (h : H) → Q fs ds h → d.osal_mutex_made h ≡ false → P fs ds h
  pub mount : {fs ds : List Bool} (h : H) (on : Bool) → Q fs ds h → Q fs ds (d.f_mount h on).1
  pub mkfs : {fs ds : List Bool} (h : H) → Q fs ds h → Q fs ds (d.f_mkfs h).1
  pub open_file :
      {fs ds : List Bool} (h : H) (i : ℕ) (fat : List ℕ) (mode : Mode)
      → InVolume fat
      → get_or fs i true ≡ false
      → Q fs ds h
      → Q
          (if is_ok (map_fr (d.f_open h i fat mode).0) then set fs i true else fs)
          ds
          (d.f_open h i fat mode).1
  pub read :
      {fs ds : List Bool} (h : H) (i n : ℕ)
      → get_or fs i false ≡ true
      → Q fs ds h
      → Q fs ds (d.f_read h i n).2
  pub write :
      {fs ds : List Bool} (h : H) (i : ℕ) (bytes : List ℕ)
      → get_or fs i false ≡ true
      → Q fs ds h
      → Q fs ds (d.f_write h i bytes).2
  pub seek :
      {fs ds : List Bool} (h : H) (i off : ℕ)
      → get_or fs i false ≡ true
      → Q fs ds h
      → Q fs ds (d.f_lseek h i off).1
  pub close :
      {fs ds : List Bool} (h : H) (i : ℕ)
      → get_or fs i false ≡ true
      → Q fs ds h
      → Q (set fs i false) ds (d.f_close h i).1
  pub stat :
      {fs ds : List Bool} (h : H) (fat : List ℕ)
      → InVolume fat
      → Q fs ds h
      → Q fs ds (d.f_stat h fat).2
  pub open_dir :
      {fs ds : List Bool} (h : H) (i : ℕ) (fat : List ℕ)
      → InVolume fat
      → get_or ds i true ≡ false
      → Q fs ds h
      → Q fs
          (if is_ok (map_fr (d.f_opendir h i fat).0) then set ds i true else ds)
          (d.f_opendir h i fat).1
  pub read_dir :
      {fs ds : List Bool} (h : H) (i : ℕ)
      → get_or ds i false ≡ true
      → Q fs ds h
      → Q fs ds (d.f_readdir h i).2
  pub close_dir :
      {fs ds : List Bool} (h : H) (i : ℕ)
      → get_or ds i false ≡ true
      → Q fs ds h
      → Q fs (set ds i false) (d.f_closedir h i).1
  pub mkdir :
      {fs ds : List Bool} (h : H) (fat : List ℕ)
      → InVolume fat
      → Q fs ds h
      → Q fs ds (d.f_mkdir h fat).1
  pub unlink :
      {fs ds : List Bool} (h : H) (fat : List ℕ)
      → InVolume fat
      → Q fs ds h
      → Q fs ds (d.f_unlink h fat).1
  pub rename :
      {fs ds : List Bool} (h : H) (from to : List ℕ)
      → InVolume from
      → InVolume to
      → Q fs ds h
      → Q fs ds (d.f_rename h from to).1

abbrev pub At : {H : Type 0} → (List Bool → List Bool → H → Type 0) → Vfs H → Type 0
At P w = P w.fil_used w.dir_used w.host

alloc-free :
    (i : ℕ) (used : List Bool) (j : ℕ)
    → alloc i used ≡ some j
    → (k : ℕ) × (j ≡ i + k) × (get_or used k true ≡ false)
unfolding alloc
alloc-free i [] j e = cc
alloc-free i (false ∷ rest) j e = (0, ground (arith, some_inj.0 e), refl)
alloc-free i (true ∷ rest) j e =
    let (k, s, f) = alloc-free (i + 1) rest j e in (suc k, omega (arith, s), f)

pub first_free : (used : List Bool) (i : ℕ) → alloc 0 used ≡ some i → get_or used i true ≡ false
first_free used i found =
    let (j, at, free) = alloc-free 0 used i found in
    let there : j ≡ i = omega (arith, at) in subst (λ i. get_or used i true ≡ false) there free

pub is_used-slot :
    (max : ℕ) (used : List Bool) (fd : ℤ)
    → is_used max used fd ≡ true
    → get_or used (slot fd) false ≡ true
unfolding is_used
is_used-slot max used (pos n) h = ground arith
is_used-slot max used (negsuc n) h = cc

-- A call leaves a property behind.
pub record Leaves {H R : Type 0} (P : List Bool → List Bool → H → Type 0) (r : R × Vfs H)
    : Type 0 where
  pub left : At P r.1

pub by_if :
    {H R : Type 0} {P : List Bool → List Bool → H → Type 0} (t : Bool) {x y : R × Vfs H}
    → (t ≡ true → Leaves P x)
    → (t ≡ false → Leaves P y)
    → Leaves P (if t then x else y)
by_if true f g = f refl
by_if false f g = g refl

pub by_ok :
    {H R : Type 0} {P : List Bool → List Bool → H → Type 0} (t : Bool) {x y : R × Vfs H}
    → (t ≡ false → Leaves P x)
    → (t ≡ true → Leaves P y)
    → Leaves P (if not t then x else y)
by_ok true f g = g refl
by_ok false f g = f refl

pub either :
    {A H : Type 0} (Z : H → Type 0) (t : Bool) (x y : A × H)
    → Z x.1
    → Z y.1
    → Z (if t then x else y).1
either Z true x y p q = p
either Z false x y p q = q

pub or_not : (a b : Bool) → (not a || b) ≡ false → a ≡ true
or_not true b h = refl
or_not false b h = cc

module _ {H : Type 0} (d : Host H) {P Q : List Bool → List Bool → H → Type 0}
    (k : Protocol d P Q) where
  vfs_unlock-Leaves : (w : Vfs H) → At Q w → At P (vfs_unlock d w)
  unfolding vfs_unlock
  vfs_unlock-Leaves w q = elim (Bool-cases (d.osal_mutex_made w.host)) [
    | inl made ↦ rw made (k.unlock w.host q made)
    | inr absent ↦ rw absent (k.no_unlock w.host q absent)
  ]

  after_boot :
      {R : Type 0} (fail : Err → R) (body : Vfs H → R × Vfs H) (w : Vfs H)
      → ((v : Vfs H) → At Q v → Leaves Q (body v))
      → At P w
      → d.osal_scheduler_running w.host ≡ true
      → Leaves P (locked d fail body w)
  unfolding locked vfs_lock
  after_boot fail body w inside p running =
      let e : H = (d.osal_mutex_ensure w.host).1 in
      let ensured = k.ensure w.host p running in
      elim (Bool-cases (is_ok (d.osal_mutex_ensure w.host).0)) [
        | inr failed ↦ record { left = simp (running, failed) ensured }
        | inl ok ↦ elim (Bool-cases (d.osal_mutex_made e)) [
          | inr absent ↦ record { left = simp (running, ok, absent) ensured }
          | inl made ↦ elim (Bool-cases (is_ok (d.osal_mutex_lock e).0)) [
            | inr busy ↦ record { left = simp (running, ok, made, busy) (k.no_lock e ensured busy) }
            | inl got ↦
                let v : Vfs H = record w { host = (d.osal_mutex_lock e).1 } in
                record {
                  left =
                      simp (running, ok, made, got)
                        (vfs_unlock-Leaves (body v).1 (inside v (k.lock e ensured made got)).left);
                }
          ]
        ]
      ]

  pub locked-Leaves :
      {R : Type 0} (fail : Err → R) (body : Vfs H → R × Vfs H) (w : Vfs H)
      → ((v : Vfs H) → At Q v → Leaves Q (body v))
      → At P w
      → Leaves P (locked d fail body w)
  unfolding locked vfs_lock
  locked-Leaves fail body w inside p = elim (Bool-cases (d.osal_scheduler_running w.host)) [
    | inr boot ↦ record {
      left = simp boot (vfs_unlock-Leaves (body w).1 (inside w (k.boot w.host p boot)).left);
    }
    | inl running ↦ after_boot fail body w inside p running
  ]
