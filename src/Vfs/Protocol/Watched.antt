-- ===== src/Vfs/Protocol/Watched.antt =====
-- A host that watches how it is called.
use stm32h745_disco.Base.{
  ℕ, Bool, true, false, List, [], ◌∷◌, ◌≡◌, refl, arith, ◌==◌, ◌&&◌, ◌||◌, ◌∙◌, sym, not, get_or,
  set, Err, if◌then◌else◌,
}
use stm32h745_disco.Vfs.Path.{is_absolute}
use stm32h745_disco.Vfs.Fat.{Fr, map_fr, Info, Host}
use stm32h745_disco.Vfs.Guarded.{InVolume}
use stm32h745_disco.Vfs.Protocol.{Protocol}

-- What the host has seen: the lock, the objects that are open, and whether all calls were as they should; and
-- whether its directory has an entry left.
pub record Monitor : Type 0 where
  pub held : Bool
  pub files : List Bool
  pub dirs : List Bool
  pub fine : Bool
  pub more : Bool
  pub running : Bool
  pub made : Bool

abbrev in_volume : List ℕ → Bool
in_volume (a ∷ b ∷ rel) = a == b'0' && b == b':' && is_absolute rel
in_volume rest = false

abbrev seen : Monitor → Bool → Monitor
seen h ok = record h { fine = h.fine && (h.held || not h.running) && ok }

abbrev no_info : Info
no_info = record { fname = []; fattrib = 0; fsize = 0 }

abbrev an_info : Info
an_info = record { fname = b'a' ∷ []; fattrib = 32; fsize = 7 }

abbrev pub watched : Host Monitor
watched = record {
  osal_scheduler_running = λ h. h.running;
  osal_mutex_ensure = λ h. (Err.ok, record h { made = true });
  osal_mutex_made = λ h. h.made;
  osal_mutex_lock =
      λ h. (Err.ok, record h { held = true; fine = h.fine && (not h.held && h.made) });
  osal_mutex_unlock = λ h. (Err.ok, record h { held = false; fine = h.fine && h.held });
  f_mount = λ h on. (Fr.fr_ok, seen h true);
  f_mkfs = λ h. (Fr.fr_ok, seen h true);
  f_open = λ h i fat mode. (
    Fr.fr_ok,
    record (seen h (in_volume fat && not (get_or h.files i true))) { files = set h.files i true },
  );
  f_read = λ h i n. (Fr.fr_ok, [], seen h (get_or h.files i false));
  f_write = λ h i bytes. (Fr.fr_ok, 0, seen h (get_or h.files i false));
  f_lseek = λ h i off. (Fr.fr_ok, seen h (get_or h.files i false));
  f_close =
      λ h i. (Fr.fr_ok, record (seen h (get_or h.files i false)) { files = set h.files i false });
  f_stat = λ h fat. (Fr.fr_ok, no_info, seen h (in_volume fat));
  f_opendir = λ h i fat. (
    Fr.fr_ok,
    record (seen h (in_volume fat && not (get_or h.dirs i true))) { dirs = set h.dirs i true },
  );
  f_readdir = λ h i. (
    Fr.fr_ok,
    if h.more then an_info else no_info,
    record (seen h (get_or h.dirs i false)) { more = false },
  );
  f_closedir =
      λ h i. (Fr.fr_ok, record (seen h (get_or h.dirs i false)) { dirs = set h.dirs i false });
  f_mkdir = λ h fat. (Fr.fr_ok, seen h (in_volume fat));
  f_unlink = λ h fat. (Fr.fr_ok, seen h (in_volume fat));
  f_rename = λ h from to. (Fr.fr_ok, seen h (in_volume from && in_volume to));
}

-- Between calls, and where FatFs may be called.
pub record IsFree (fs ds : List Bool) (h : Monitor) : Type 0 where
  pub fine : h.fine ≡ true
  pub lock : h.held ≡ false
  pub boot : (h.running || not h.made) ≡ true
  pub files : h.files ≡ fs
  pub dirs : h.dirs ≡ ds

pub record IsFine (fs ds : List Bool) (h : Monitor) : Type 0 where
  pub fine : h.fine ≡ true
  pub lock : h.held ≡ h.running
  pub made : h.made ≡ h.running
  pub files : h.files ≡ fs
  pub dirs : h.dirs ≡ ds

allowed : {a b : Bool} → a ≡ b → (a || not b) ≡ true
allowed {a = true} e = refl
allowed {a = false} e = rw (sym e) refl

seen-IsFine :
    {fs ds : List Bool} (h : Monitor) (ok : Bool)
    → ok ≡ true
    → IsFine fs ds h
    → IsFine fs ds (seen h ok)
seen-IsFine h ok e f = record {
  fine = simp (f.fine, allowed f.lock, e) refl;
  lock = f.lock;
  made = f.made;
  files = f.files;
  dirs = f.dirs;
}

runs_if_made : {a b : Bool} → (a || not b) ≡ true → b ≡ true → a ≡ true
runs_if_made {a} {b} e f = ground (arith, e, f)

in_volume-InVolume : (fat : List ℕ) → InVolume fat → in_volume fat ≡ true
in_volume-InVolume fat v = rw (v.shape, v.absolute) refl

both : {a b : Bool} → a ≡ true → b ≡ true → (a && b) ≡ true
both e f = rw (e, f) refl

not_made : {b : Bool} → (false || not b) ≡ true → b ≡ false
not_made {b = true} e = cc
not_made {b = false} e = refl

or_true : (a : Bool) → (a || not false) ≡ true
or_true true = refl
or_true false = refl

pub watched-Protocol : Protocol watched IsFree IsFine
unfolding map_fr
watched-Protocol = record {
  boot = λ h p e. record {
    fine = p.fine;
    lock = p.lock ∙ sym e;
    made = not_made (rw e at p.boot) ∙ sym e;
    files = p.files;
    dirs = p.dirs;
  };
  ensure = λ h p e. record {
    fine = p.fine;
    lock = p.lock;
    boot = rw e refl;
    files = p.files;
    dirs = p.dirs;
  };
  lock = λ h p made ok. record {
    fine = simp (p.fine, p.lock, made) refl;
    lock = sym (runs_if_made p.boot made);
    made = made ∙ sym (runs_if_made p.boot made);
    files = p.files;
    dirs = p.dirs;
  };
  no_lock = λ h p e. cc;
  unlock = λ h q made. record {
    fine = simp (q.fine, q.lock, sym q.made ∙ made) refl;
    lock = refl;
    boot = rw (sym q.made ∙ made) refl;
    files = q.files;
    dirs = q.dirs;
  };
  no_unlock = λ h q absent. record {
    fine = q.fine;
    lock = q.lock ∙ sym q.made ∙ absent;
    boot = rw absent (or_true _);
    files = q.files;
    dirs = q.dirs;
  };
  mount = λ h on q. seen-IsFine h true refl q;
  mkfs = λ h q. seen-IsFine h true refl q;
  open_file = λ h i fat mode v free q. record {
    fine = simp (q.fine, allowed q.lock, in_volume-InVolume fat v, q.files, free) refl;
    lock = q.lock;
    made = q.made;
    files = rw q.files refl;
    dirs = q.dirs;
  };
  read = λ h i n o q. seen-IsFine h _ (rw q.files o) q;
  write = λ h i bytes o q. seen-IsFine h _ (rw q.files o) q;
  seek = λ h i off o q. seen-IsFine h _ (rw q.files o) q;
  close = λ h i o q. record {
    fine = simp (q.fine, allowed q.lock, q.files, o) refl;
    lock = q.lock;
    made = q.made;
    files = rw q.files refl;
    dirs = q.dirs;
  };
  stat = λ h fat v q. seen-IsFine h _ (in_volume-InVolume fat v) q;
  open_dir = λ h i fat v free q. record {
    fine = simp (q.fine, allowed q.lock, in_volume-InVolume fat v, q.dirs, free) refl;
    lock = q.lock;
    made = q.made;
    files = q.files;
    dirs = rw q.dirs refl;
  };
  read_dir = λ h i o q. record {
    fine = simp (q.fine, allowed q.lock, q.dirs, o) refl;
    lock = q.lock;
    made = q.made;
    files = q.files;
    dirs = q.dirs;
  };
  close_dir = λ h i o q. record {
    fine = simp (q.fine, allowed q.lock, q.dirs, o) refl;
    lock = q.lock;
    made = q.made;
    files = q.files;
    dirs = rw q.dirs refl;
  };
  mkdir = λ h fat v q. seen-IsFine h _ (in_volume-InVolume fat v) q;
  unlink = λ h fat v q. seen-IsFine h _ (in_volume-InVolume fat v) q;
  rename = λ h from to v u q.
      seen-IsFine h _ (both (in_volume-InVolume from v) (in_volume-InVolume to u)) q;
}
