-- ===== src/TextView/Pages.antt =====
-- Paging forward through a well-formed text shows all of it.
use stm32h745_disco.Base.{
  ℕ, zero, suc, true, false, some, List, [], ◌∷◌, ◌++◌, ◌+◌, ◌^◌, ◌≤◌, ◌<◌, ◌≡◌, refl, sym, ap, ◌∙◌,
  arith, leb, ◌==◌, if◌then◌else◌, u32, length, length-append, Err, Bool-cases, inl, inr,
}
use stm32h745_disco.Base.Int.{pos}
use stm32h745_disco.TextView.Utf8.{Utf8}
use stm32h745_disco.TextView.Kept.{NoReturn, append_assoc, append_end}
use stm32h745_disco.TextView.State.{
  Files, TextView, bump, open_common, text_view_close, text_view_open_mem, text_view_page,
}
use stm32h745_disco.TextView.Window.{Reading, load_window-Reading}

-- The texts of the window, page after page, until a page leaves it where it is.
unfoldable pub pages : {S : Type 0} → Files S → ℕ → TextView → S → List ℕ
pages d zero v s = v.text
pages d (suc k) v s =
    let (e, w, s') = text_view_page d v s (pos 1) in
    let more = pages d k w s' in if w.off == v.off then v.text else v.text ++ more

module _ {S : Type 0} (d : Files S) where
  -- A page forward shows what follows.
  page-Reading :
      {t before rest : List ℕ} (v : TextView) (s : S)
      → Reading t before rest v
      → length t < 2 ^ 32
      → 0 < length rest
      → (w : TextView) × (rest' : List ℕ) × (text_view_page d v s (pos 1) ≡ (Err.ok, w, s))
        × Reading t (before ++ v.text) rest' w
        × (rest ≡ w.text ++ rest')
  unfolding text_view_page
  page-Reading {t} {before} {rest} v s r short more =
      let long = ap length r.parts ∙ length-append before (v.text ++ rest) in
      let shown = length-append v.text rest in
      let upto = length-append before v.text in
      let here : u32 (v.off + v.raw) ≡ length (before ++ v.text) =
        omega (arith, r.off, r.raw, long, shown, upto, short) in
      let some_text : 0 < length v.text = elim r.moved [
        | inl nothing_left ↦ absurd (omega (arith, more, ap length nothing_left))
        | inr moved ↦ moved
      ] in
      let t1 : (v.raw == 0) ≡ false = ground (arith, r.raw, some_text) in
      let t2 : leb v.size (length (before ++ v.text)) ≡ false =
        ground (arith, r.size, long, shown, upto, more) in
      let (w, rest', e, rd, cut) =
        load_window-Reading d v s (before ++ v.text) rest r.mem r.use_mem r.size
          (r.parts ∙ sym (append_assoc before v.text rest)) short r.rest_Utf8 r.rest_NoReturn in
      (w, rest', rw (here, t1, t2) e, rd, cut)

  page_at_end :
      {t before : List ℕ} (v : TextView) (s : S)
      → Reading t before [] v
      → length t < 2 ^ 32
      → text_view_page d v s (pos 1) ≡ (Err.ok, v, s)
  unfolding text_view_page
  page_at_end {t} {before} v s r short =
      let long = ap length r.parts ∙ length-append before (v.text ++ []) in
      let shown = length-append v.text [] in
      let at_end : leb v.size (u32 (v.off + v.raw)) ≡ true =
        ground (arith, r.size, r.off, r.raw, long, shown, short) in
      elim (Bool-cases (v.raw == 0)) [ inl q ↦ simp (q, at_end) | inr q ↦ simp (q, at_end) ]

  pages-rest :
      (k : ℕ) {t before rest : List ℕ} (v : TextView) (s : S)
      → Reading t before rest v
      → length t < 2 ^ 32
      → length rest ≤ k
      → pages d k v s ≡ v.text ++ rest
  unfolding pages
  pages-rest zero {rest = []} v s r short enough = sym (append_end v.text)
  pages-rest zero {rest = b ∷ rest} v s r short enough = absurd (omega arith)
  pages-rest (suc k) {rest = []} v s r short enough =
      let same : (v.off == v.off) ≡ true = ground arith in
      rw (page_at_end v s r short, same) (sym (append_end v.text))
  pages-rest (suc k) {before = before} {rest = b ∷ rest} v s r short enough =
      let (w, rest', e, rd, cut) = page-Reading v s r short (omega arith) in
      let upto = length-append before v.text in
      let some_text : 0 < length v.text = elim r.moved [
        | inl nothing_left ↦ cc
        | inr moved ↦ moved
      ] in
      let on : (w.off == v.off) ≡ false = ground (arith, rd.off, r.off, upto, some_text) in
      let fewer : length rest' ≤ k = elim rd.moved [
        | inl nothing_left ↦ omega (arith, ap length nothing_left)
        | inr moved ↦ omega (arith, moved, ap length cut, length-append w.text rest', enough)
      ] in
      rw (e, on) (ap (λ l. v.text ++ l) (pages-rest k w s rd short fewer ∙ sym cut))

  -- A well-formed text in memory without carriage returns, of less than 4 GiB, is shown completely: opening
  -- it answers ok, and the texts that the window shows then, page after page forward until a page leaves it
  -- where it is, for as many pages as the text has bytes at most, are the text.
  pub pages-open_mem :
      (v : TextView) (s : S) {t : List ℕ}
      → Utf8 t
      → NoReturn t
      → length t < 2 ^ 32
      → (text_view_open_mem d v s (some t) (length t)).0 ≡ Err.ok
        × (let (e, w, s') = text_view_open_mem d v s (some t) (length t) in
            pages d (length t) w s' ≡ t)
  unfolding text_view_open_mem open_common text_view_close bump
  pages-open_mem v s {t} u nr short =
      let closed = text_view_close v in
      let start : TextView = record closed {
        name = b'm' ∷ b'e' ∷ b'm' ∷ [];
        use_mem = true;
        mem = t;
        size = length t;
        off = 0;
        raw = 0;
      } in
      let (w, rest, e, rd, cut) =
        load_window-Reading d start s [] t refl refl refl refl short u nr in
      (
        ap (λ r. r.0) e,
        ap (λ r. pages d (length t) r.1 r.2) e
            ∙ pages-rest (length t) w s rd short
                (omega (arith, ap length cut, length-append w.text rest))
            ∙ sym cut,
      )
