-- ===== src/Vfs/Handles.antt =====
-- What a caller of firmware/src/svc/vfs.c may rely on of the descriptors of files.
use stm32h745_disco.Base.{
  ℕ, zero, suc, Bool, true, false, none, some, List, [], ◌∷◌, ◌+◌, ◌≡◌, ◌<◌, ◌⊎◌, inl, inr, refl,
  sym, ap, subst, ◌∙◌, arith, ltb, if◌then◌else◌, length, get_or, set, Err, is_ok, Result-cases,
  Bool-cases, Option-cases,
}
use mathlib.Core.Option.{some_inj}
use mathlib.Core.Bool.{true≢false}
use stm32h745_disco.Base.{get_or-set_self}
use stm32h745_disco.Base.Int.{ℤ, pos, negsuc}
use stm32h745_disco.Vfs.Path.{normalize, jail_rel, vfs_path_max}
use stm32h745_disco.Vfs.Path.Errors.{
  hides_ok, hides_ok-error, >>=-hides_ok, guard-hides_ok, normalize-hides_ok, jail_rel-hides_ok,
}
use stm32h745_disco.Vfs.Fat.{
  map_fr, Host, Vfs, to_fat, fat_max, vfs_file_max, vfs_lock, vfs_unlock, locked,
}
use stm32h745_disco.Vfs.Files.{
  alloc, is_used, slot, mode_of, open_unlocked, vfs_open, close_unlocked, vfs_close,
}

-- The number of entries in use.
unfoldable pub count : List Bool → ℕ
count [] = 0
count (used ∷ rest) = (if used then 1 else 0) + count rest

alloc-set :
    (i : ℕ) (used : List Bool) (j : ℕ)
    → alloc i used ≡ some j
    → (k : ℕ) × (j ≡ i + k)
      × (k < length used)
      × (get_or used k false ≡ false)
      × (count (set used k true) ≡ suc (count used))
unfolding alloc count
alloc-set i [] j e = cc
alloc-set i (false ∷ rest) j e = (0, ground (arith, some_inj.0 e), omega arith, refl, omega arith)
alloc-set i (true ∷ rest) j e =
    let (k, s, b, f, c) = alloc-set (i + 1) rest j e in
    (suc k, omega (arith, s), omega (arith, b), f, omega (arith, c))

alloc-none : (i : ℕ) (used : List Bool) → alloc i used ≡ none → count used ≡ length used
unfolding alloc count
alloc-none i [] e = refl
alloc-none i (true ∷ rest) e = let n = alloc-none (i + 1) rest e in omega (arith, n)
alloc-none i (false ∷ rest) e = cc

free_again :
    (used : List Bool) (i : ℕ) → get_or used i false ≡ false → set (set used i true) i false ≡ used
free_again [] i e = refl
free_again (u ∷ rest) zero e = ap (λ u. u ∷ rest) (sym e)
free_again (u ∷ rest) (suc i) e = ap (λ r. u ∷ r) (free_again rest i e)

-- How a call that opens ends: with an error and no descriptor, the table as it was, or with a descriptor
-- in range that was free, and is now the only one more in use.
pub data Opens (max : ℕ) (used : List Bool) : Err × ℤ → List Bool → Type 0 where
  refused : (e : Err) → is_ok e ≡ false → Opens max used (e, negsuc 0) used
  opened :
      (i : ℕ)
      → i < max
      → get_or used i false ≡ false
      → count (set used i true) ≡ suc (count used)
      → Opens max used (Err.ok, pos i) (set used i true)

to_fat-hides_ok : (path : List ℕ) (fat_sz : ℕ) → hides_ok (to_fat path fat_sz) ≡ false
unfolding to_fat
to_fat-hides_ok path fat_sz =
    >>=-hides_ok (normalize path vfs_path_max) _ (normalize-hides_ok path vfs_path_max) (λ norm.
      >>=-hides_ok (jail_rel norm vfs_path_max) _ (jail_rel-hides_ok norm vfs_path_max)
        (λ rel. guard-hides_ok (ltb fat_sz (length rel + 3)) Err.nospc _ refl refl))

-- What is open can be closed.
Opens-closes :
    {used : List Bool} {r : Err × ℤ} {after : List Bool} (fd : ℤ)
    → Opens vfs_file_max used r after
    → r ≡ (Err.ok, fd)
    → length used ≡ vfs_file_max
    → (is_used vfs_file_max after fd ≡ true) × (set after (slot fd) false ≡ used)
unfolding is_used
Opens-closes fd (refused e bad) p n = absurd (true≢false (sym (ap (λ r. is_ok r.0) p) ∙ bad))
Opens-closes {used = used} fd (opened i short free more) p n =
    subst
      (λ fd.
        (is_used vfs_file_max (set used i true) fd ≡ true)
        × (set (set used i true) (slot fd) false ≡ used))
      (ap (λ r. r.1) p)
      (
        rw (get_or-set_self used i true false (omega (arith, short, n))) (ground (arith, short)),
        free_again used i free,
      )

module _ {H : Type 0} (d : Host H) where
  vfs_unlock-tables :
      (w : Vfs H)
      → ((vfs_unlock d w).fil_used ≡ w.fil_used) × ((vfs_unlock d w).dir_used ≡ w.dir_used)
  unfolding vfs_unlock
  vfs_unlock-tables w = elim (Bool-cases (d.osal_mutex_made w.host)) [
    | inl e ↦ rw e (refl, refl)
    | inr e ↦ rw e (refl, refl)
  ]

  pub vfs_lock-host : (w : Vfs H) → (h : H) × ((vfs_lock d w).1 ≡ record w { host = h })
  unfolding vfs_lock
  vfs_lock-host w = elim (Bool-cases (d.osal_scheduler_running w.host)) [
    | inr e ↦ (w.host, rw e refl)
    | inl r ↦ elim (Bool-cases (is_ok (d.osal_mutex_ensure w.host).0)) [
      | inr e ↦ ((d.osal_mutex_ensure w.host).1, rw (r, e) refl)
      | inl k ↦ elim (Bool-cases (d.osal_mutex_made (d.osal_mutex_ensure w.host).1)) [
        | inr e ↦ ((d.osal_mutex_ensure w.host).1, rw (r, k, e) refl)
        | inl m ↦ ((d.osal_mutex_lock (d.osal_mutex_ensure w.host).1).1, rw (r, k, m) refl)
      ]
    ]
  ]

  -- A call either fails at the lock or is its body, up to the state of what is called.
  locked-cases :
      {R : Type 0} (fail : Err → R) (body : Vfs H → R × Vfs H) (w : Vfs H)
      → (h : H) × (let v = record w { host = h } in
          ((e : Err) × (is_ok e ≡ false) × (locked d fail body w ≡ (fail e, v)))
          ⊎ (locked d fail body w ≡ ((body v).0, vfs_unlock d (body v).1)))
  unfolding locked
  locked-cases fail body w =
      let (h, there) = vfs_lock-host w in
      (
        h,
        elim (Bool-cases (is_ok (vfs_lock d w).0)) [
          | inr e ↦ inl ((vfs_lock d w).0, e, rw (e, there) refl)
          | inl e ↦ inr (rw (e, there) refl)
        ],
      )

  -- What holds of the tables after a call, when it does for an error at the lock and for the body.
  locked_by :
      {R : Type 0} (Z : R → List Bool → List Bool → Type 0) (fail : Err → R)
      (body : Vfs H → R × Vfs H) (w : Vfs H)
      → ((e : Err) → is_ok e ≡ false → Z (fail e) w.fil_used w.dir_used)
      → ((h : H) → let r = body (record w { host = h }) in Z r.0 r.1.fil_used r.1.dir_used)
      → let r = locked d fail body w in Z r.0 r.1.fil_used r.1.dir_used
  locked_by Z fail body w at_lock in_body =
      let (h, c) = locked-cases fail body w in
      elim c [
        | inl (e, bad, k) ↦ rw k (at_lock e bad)
        | inr k ↦
            let (f, g) = vfs_unlock-tables (body (record w { host = h })).1 in
            rw (k, f, g) (in_body h)
      ]

  open_unlocked-Opens :
      (fat : List ℕ) (flags : ℕ) (w : Vfs H)
      → length w.fil_used ≡ vfs_file_max
      → let r = open_unlocked d fat flags w in
        Opens vfs_file_max w.fil_used r.0 r.1.fil_used × (r.1.dir_used ≡ w.dir_used)
  unfolding open_unlocked
  open_unlocked-Opens fat flags w n = elim (Bool-cases w.mounted) [
    | inr e ↦ rw e (refused Err.io refl, refl)
    | inl m ↦ elim (Option-cases (alloc 0 w.fil_used)) [
      | inl full ↦ rw (m, full) (refused Err.busy refl, refl)
      | inr (i, found) ↦
          let (k, at, short, free, more) = alloc-set 0 w.fil_used i found in
          let there : i ≡ k = omega (arith, at) in
          elim (Bool-cases (is_ok (map_fr (d.f_open w.host i fat (mode_of flags)).0))) [
            | inr bad ↦ rw (m, found, bad) (refused _ bad, refl)
            | inl ok ↦
                rw (m, found, ok)
                  (opened i (omega (arith, there, short, n)) (rw there free) (rw there more), refl)
          ]
    ]
  ]

  -- `vfs_open`, whatever the path, the flags and the answers of FatFs and of the operating system, leaves the
  -- table of directories as it was, and ends in one of two ways: with an error, the descriptor -1 and the table
  -- of files as it was; or with a descriptor in range that was free, and exactly that one more in use.
  pub vfs_open-Opens :
      (w : Vfs H) (path : List ℕ) (flags : ℕ)
      → length w.fil_used ≡ vfs_file_max
      → let r = vfs_open d w path flags in
        Opens vfs_file_max w.fil_used r.0 r.1.fil_used × (r.1.dir_used ≡ w.dir_used)
  unfolding vfs_open
  vfs_open-Opens w path flags n = elim (Result-cases (to_fat path fat_max)) [
    | inr (err, e) ↦
        rw (vfs_open, e) (refused err (hides_ok-error e (to_fat-hides_ok path fat_max)), refl)
    | inl (fat, e) ↦
        rw (vfs_open, e)
          (locked_by (λ r fs ds. Opens vfs_file_max w.fil_used r fs × (ds ≡ w.dir_used)) _ _ w
            (λ e bad. (refused e bad, refl))
            (λ h. open_unlocked-Opens fat flags (record w { host = h }) n))
  ]

  closes :
      (v : Vfs H) (fd : ℤ)
      → is_ok (vfs_lock d v).0 ≡ true
      → is_used vfs_file_max v.fil_used fd ≡ true
      → ((vfs_close d v fd).1.fil_used ≡ set v.fil_used (slot fd) false)
        × ((vfs_close d v fd).1.dir_used ≡ v.dir_used)
  unfolding vfs_close locked close_unlocked
  closes v fd got used =
      let (h, there) = vfs_lock-host v in
      let (f, g) = vfs_unlock-tables (close_unlocked d fd (record v { host = h })).1 in
      rw (got, there, f, g, used) (refl, refl)

  -- After `vfs_open` has given a descriptor, `vfs_close` of that descriptor, when it gets the lock, makes the
  -- tables of open files and directories what they were before, whatever FatFs answers.
  pub vfs_close-vfs_open :
      (w : Vfs H) (path : List ℕ) (flags : ℕ) (fd : ℤ)
      → length w.fil_used ≡ vfs_file_max
      → (vfs_open d w path flags).0 ≡ (Err.ok, fd)
      → let v = (vfs_open d w path flags).1 in
        is_ok (vfs_lock d v).0 ≡ true
        → ((vfs_close d v fd).1.fil_used ≡ w.fil_used)
          × ((vfs_close d v fd).1.dir_used ≡ w.dir_used)
  vfs_close-vfs_open w path flags fd n e got =
      let (o, dirs) = vfs_open-Opens w path flags n in
      let (used, again) = Opens-closes fd o e n in
      let (f, g) = closes (vfs_open d w path flags).1 fd got used in (f ∙ again, g ∙ dirs)
