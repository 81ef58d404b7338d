-- ===== src/TextView/Stuck.antt =====
-- Where paging forward does not get on.
use stm32h745_disco.Base.{
  ℕ, zero, suc, true, false, List, [], ◌∷◌, ◌<◌, ◌≤◌, ◌≡◌, refl, arith, ltb, ◌==◌, Err,
}
use stm32h745_disco.Base.Int.{pos}
use stm32h745_disco.TextView.{text_win_max, utf8_cont, drop_cont, skip_partial, emit_all}
use stm32h745_disco.TextView.State.{
  Files, TextView, bump, read_raw, show, load_window, text_view_page,
}

-- Bytes that only go on with a character, each between 0x80 and 0xBF.
abbrev pub AllCont : List ℕ → Type 0
AllCont [] = Unit
AllCont (b ∷ bs) = (0x80 ≤ b) × (b ≤ 0xBF) × AllCont bs

is_cont : (b : ℕ) → 0x80 ≤ b → b ≤ 0xBF → utf8_cont b ≡ true
unfolding utf8_cont
is_cont b low high = ground arith

drop_cont-AllCont : (bytes : List ℕ) → AllCont bytes → drop_cont bytes ≡ []
unfolding drop_cont
drop_cont-AllCont [] a = refl
drop_cont-AllCont (b ∷ bs) (low, high, a) = rw (is_cont b low high) (drop_cont-AllCont bs a)

module _ {S : Type 0} (d : Files S) where
  -- So many pages forward, one after the other.
  unfoldable pub page_on : ℕ → TextView → S → Err × TextView × S
  page_on zero v s = (Err.ok, v, s)
  page_on (suc k) v s = let (e, w, s2) = text_view_page d v s (pos 1) in page_on k w s2

  page_on-stays :
      (k : ℕ) (v : TextView) (s : S)
      → text_view_page d v s (pos 1) ≡ (Err.ok, v, s)
      → page_on k v s ≡ (Err.ok, v, s)
  unfolding page_on
  page_on-stays zero v s h = refl
  page_on-stays (suc k) v s h = rw h (page_on-stays k v s h)

  no_text :
      (v : TextView) (s s' : S) (off : ℕ) (bytes : List ℕ)
      → 0 < off
      → off < v.size
      → read_raw d (record v { text = []; raw = 0 }) s off text_win_max ≡ (Err.ok, bytes, s')
      → drop_cont bytes ≡ []
      → (load_window d v s off).0 ≡ Err.ok
        × (let (e, w, s2) = load_window d v s off in
            (w.text ≡ []) × (text_view_page d w s2 (pos 1) ≡ (Err.ok, w, s2)))
  unfolding load_window show bump skip_partial emit_all text_view_page
  no_text v s s' off bytes later inside read conts =
      let near : ltb v.size off ≡ false = ground arith in
      let filled : (v.size == 0) ≡ false = ground arith in
      let not_start : (off == 0) ≡ false = ground arith in
      rw (near, read, filled, not_start, conts) (refl, (refl, refl))

  -- If the bytes read at a place inside the file, other than its start, are all between 0x80 and 0xBF, as many as
  -- they are, the window there is loaded and is empty, and however many pages forward follow, the view stays as it
  -- is, whatever else the file has after them.
  pub page_stuck :
      (v : TextView) (s s' : S) (off : ℕ) (bytes : List ℕ)
      → 0 < off
      → off < v.size
      → read_raw d (record v { text = []; raw = 0 }) s off text_win_max ≡ (Err.ok, bytes, s')
      → AllCont bytes
      → (k : ℕ)
      → (load_window d v s off).0 ≡ Err.ok
        × (let (e, w, s2) = load_window d v s off in
            (w.text ≡ []) × (page_on k w s2 ≡ (Err.ok, w, s2)))
  page_stuck v s s' off bytes later inside read conts k =
      let r = no_text v s s' off bytes later inside read (drop_cont-AllCont bytes conts) in
      (r.0, (r.1.0, page_on-stays k _ _ r.1.1))
