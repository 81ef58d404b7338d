-- ===== src/TextView/Calls.antt =====
-- The window under any sequence of calls and any file system.
use stm32h745_disco.Base.{
  ℕ, Bool, true, false, Option, none, some, List, [], ◌∷◌, ◌+◌, ◌-◌, ◌≡◌, refl, arith, ltb, leb,
  ◌==◌, if◌then◌else◌, not, ◌&&◌, ◌||◌, u32, length, Err, is_ok,
}
use stm32h745_disco.Base.Int.{ℤ, pos_part, neg_part}
use stm32h745_disco.TextView.{text_win_max, skip_partial}
use stm32h745_disco.TextView.Utf8.{nothing}
use stm32h745_disco.TextView.Emit.{Shown, emit_all-Shown}
use stm32h745_disco.TextView.State.{
  Files, TextView, bump, read_raw, show, load_window, open_common, text_view_close, text_view_open,
  text_view_open_mem, text_view_set_window, text_view_page, vfs_path_max,
}

-- The text of a view is well-formed and fits.
pub record ShowsText (v : TextView) : Type 0 where
  pub shown : Shown v.text

empty_window : Shown []
empty_window = record { well_formed = nothing; fits = omega arith }

no_text : {v : TextView} → v.text ≡ [] → ShowsText v
no_text {v} e = record { shown = rw e empty_window }

show-ShowsText : (v : TextView) (off : ℕ) (bytes : List ℕ) → ShowsText (show v off bytes)
unfolding show bump
show-ShowsText v off bytes = record {
  shown = emit_all-Shown _ [] (skip_partial bytes off) _ empty_window;
}

-- A call answers with a view.
record Answer {S : Type 0} (r : Err × TextView × S) : Type 0 where
  view : ShowsText r.1

answer : {S : Type 0} {e : Err} {v : TextView} {s : S} → ShowsText v → Answer (e, v, s)
answer k = record { view = k }

by_if :
    {S : Type 0} (t : Bool) {x y : Err × TextView × S}
    → Answer x
    → Answer y
    → Answer (if t then x else y)
by_if true a b = a
by_if false a b = b

-- The calls of the interface.
pub data Call : Type 0 where
  open_file : Option (List ℕ) → Call
  open_mem : Option (List ℕ) → ℕ → Call
  close : Call
  set_window : ℕ → Call
  page : ℤ → Call

module _ {S : Type 0} (d : Files S) where
  load_window-Answer : (v : TextView) (s : S) (off : ℕ) → Answer (load_window d v s off)
  unfolding load_window bump
  load_window-Answer v s off0 =
      let off = if ltb v.size off0 then v.size else off0 in
      let v1 : TextView = record v { text = []; raw = 0 } in
      by_if (v.size == 0) (answer (no_text refl)) (
        by_if (not (is_ok (read_raw d v1 s off text_win_max).0)) (answer (no_text refl))
          (answer (show-ShowsText v1 off _)))

  open_common-Answer : (v : TextView) (s : S) (size : ℕ) → Answer (open_common d v s size)
  unfolding open_common
  open_common-Answer v s size = load_window-Answer _ s 0

  open-Answer : (v : TextView) (s : S) (path : Option (List ℕ)) → Answer (text_view_open d v s path)
  unfolding text_view_open text_view_close bump
  open-Answer v s none = answer (no_text refl)
  open-Answer v s (some path) = by_if (length path == 0) (answer (no_text refl)) (
      by_if (not (is_ok (d.vfs_stat s path).0)) (answer (no_text refl)) (
        by_if (d.vfs_stat s path).1 (answer (no_text refl)) (
          by_if (leb vfs_path_max (length path)) (answer (no_text refl))
            (open_common-Answer _ _ _))))

  open_mem-Answer :
      (v : TextView) (s : S) (bytes : Option (List ℕ)) (size : ℕ)
      → Answer (text_view_open_mem d v s bytes size)
  unfolding text_view_open_mem text_view_close bump
  open_mem-Answer v s none size =
      by_if (not (size == 0)) (answer (no_text refl)) (open_common-Answer _ s size)
  open_mem-Answer v s (some bytes) size = open_common-Answer _ s size

  set_window-Answer :
      (v : TextView) (s : S) (off : ℕ) → ShowsText v → Answer (text_view_set_window d v s off)
  unfolding text_view_set_window
  set_window-Answer v s off k =
      by_if (not (is_ok v.st) && (v.size == 0 && (not v.use_mem && length v.path == 0))) (answer k)
        (load_window-Answer v s off)

  page-Answer : (v : TextView) (s : S) (dir : ℤ) → ShowsText v → Answer (text_view_page d v s dir)
  unfolding text_view_page
  page-Answer v s dir k =
      by_if (ltb 0 (pos_part dir))
        (by_if (v.raw == 0 || leb v.size (u32 (v.off + v.raw))) (answer k)
          (load_window-Answer v s (u32 (v.off + v.raw))))
        (by_if (ltb 0 (neg_part dir))
          (by_if (v.off == 0) (answer k)
            (load_window-Answer v s (if ltb text_win_max v.off then v.off - text_win_max else 0)))
          (answer k))

  unfoldable pub after : Call → TextView → S → Err × TextView × S
  after (open_file path) v s = text_view_open d v s path
  after (open_mem bytes size) v s = text_view_open_mem d v s bytes size
  after close v s = (Err.ok, text_view_close v, s)
  after (set_window off) v s = text_view_set_window d v s off
  after (page dir) v s = text_view_page d v s dir

  unfoldable pub after_all : List Call → TextView → S → TextView
  after_all [] v s = v
  after_all (call ∷ calls) v s = let (e, w, s') = after call v s in after_all calls w s'

  after-Answer : (call : Call) (v : TextView) (s : S) → ShowsText v → Answer (after call v s)
  unfolding after text_view_close bump
  after-Answer (open_file path) v s k = open-Answer v s path
  after-Answer (open_mem bytes size) v s k = open_mem-Answer v s bytes size
  after-Answer close v s k = answer (no_text refl)
  after-Answer (set_window off) v s k = set_window-Answer v s off k
  after-Answer (page dir) v s k = page-Answer v s dir k

  -- Whatever is in the files or in memory, and whatever the file system answers, any sequence of calls leaves
  -- a well-formed UTF-8 text in the window that fits its buffer, if there was one before.
  pub after_all-ShowsText :
      (calls : List Call) (v : TextView) (s : S) → ShowsText v → ShowsText (after_all calls v s)
  unfolding after_all
  after_all-ShowsText [] v s k = k
  after_all-ShowsText (call ∷ calls) v s k =
      after_all-ShowsText calls (after call v s).1 (after call v s).2 (after-Answer call v s k).view
