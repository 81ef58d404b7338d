-- ===== src/TextView/Tests.antt =====
-- The text window at concrete inputs.
use stm32h745_disco.Base.{
  ℕ, true, false, some, List, [], ◌∷◌, ◌+◌, ◌≡◌, refl, arith, length, Err, take,
}
use stm32h745_disco.Base.Int.{pos}
use stm32h745_disco.TextView.{
  text_win_max, utf8_len, utf8_cont, all_cont, ok_3, ok_4, utf8_ok, skip_nl, emit_seq, emit_all,
}
use stm32h745_disco.TextView.Utf8.{Utf8, nothing, one, two, three}
use stm32h745_disco.TextView.State.{Files, TextView, text_view_open_mem, load_window, read_raw}
use stm32h745_disco.TextView.Calls.{
  ShowsText, open_file, open_mem, page, after_all, after_all-ShowsText,
}
use stm32h745_disco.TextView.Pages.{pages, pages-open_mem}
use stm32h745_disco.TextView.Stuck.{AllCont, page_on, page_stuck}

-- A surrogate and a cut-off sequence become question marks, a carriage return a line feed.
mended :
    emit_all 8 [] (0x41 ∷ 0x0D ∷ 0x0A ∷ 0xED ∷ 0xA0 ∷ 0x80 ∷ 0xC3 ∷ []) true
    ≡ (0x41 ∷ 0x0A ∷ 0x3F ∷ 0x3F ∷ 0x3F ∷ 0x3F ∷ [], [])
unfolding utf8_len utf8_cont all_cont ok_3 ok_4 utf8_ok skip_nl emit_seq emit_all
mended = refl

-- A file system with one file of ten bytes, of which each read gives four continuation bytes.
abbrev one_file : Files ℕ
one_file = record {
  vfs_stat = λ s path. (Err.ok, false, 10, s);
  vfs_open = λ s path flags. (Err.ok, 3, s);
  vfs_seek = λ s fd off. (Err.ok, s);
  vfs_read = λ s fd n. (Err.ok, take n (0x80 ∷ 0xBF ∷ 0x80 ∷ 0x80 ∷ []), s + 1);
  vfs_close = λ s fd. s;
}

abbrev closed : TextView
closed = record {
  mem = [];
  size = 0;
  off = 0;
  raw = 0;
  gen = 0;
  st = Err.ok;
  name = [];
  path = [];
  use_mem = false;
  text = [];
}

abbrev opened : TextView
opened = record closed { size = 10; path = b'/' ∷ b'a' ∷ [] }

-- "Aé€" and a line feed.
abbrev sample : List ℕ
sample = 0x41 ∷ 0xC3 ∷ 0xA9 ∷ 0xE2 ∷ 0x82 ∷ 0xAC ∷ 0x0A ∷ []

sample-Utf8 : Utf8 sample
sample-Utf8 = one _ _ (omega arith) (
    two _ _ _ (omega arith, omega arith) (omega arith, omega arith)
      (three _ _ _ _
        (record {
          lead = (omega arith, omega arith);
          tail = (omega arith, omega arith);
          no_short = λ e. absurd (omega arith);
          no_surrogate = λ e. absurd (omega arith);
        })
        (omega arith, omega arith) (one _ _ (omega arith) nothing)))

pages-open_mem_example :
    ((text_view_open_mem one_file closed 0 (some sample) (length sample)).0 ≡ Err.ok)
    × (let (e, w, s') = text_view_open_mem one_file closed 0 (some sample) (length sample) in
        pages one_file (length sample) w s' ≡ sample)
pages-open_mem_example =
    pages-open_mem one_file closed 0 sample-Utf8
      (
        (λ e. absurd (omega arith)),
        (
          (λ e. absurd (omega arith)),
          (
            (λ e. absurd (omega arith)),
            (
              (λ e. absurd (omega arith)),
              (
                (λ e. absurd (omega arith)),
                ((λ e. absurd (omega arith)), ((λ e. absurd (omega arith)), tt)),
              ),
            ),
          ),
        ),
      )
      (omega arith)

after_all-ShowsText_example : ShowsText (
    after_all one_file
      (open_file (some (b'/' ∷ b'a' ∷ []))
        ∷ page (pos 1)
        ∷ open_mem (some (0xFF ∷ 0x41 ∷ [])) 2
        ∷ [])
      closed
      0)
after_all-ShowsText_example =
    after_all-ShowsText one_file
      (open_file (some (b'/' ∷ b'a' ∷ []))
        ∷ page (pos 1)
        ∷ open_mem (some (0xFF ∷ 0x41 ∷ [])) 2
        ∷ [])
      closed 0 (record { shown = record { well_formed = nothing; fits = omega arith } })

four_bytes_read :
    read_raw one_file opened 0 5 text_win_max ≡ (Err.ok, 0x80 ∷ 0xBF ∷ 0x80 ∷ 0x80 ∷ [], 1)
unfolding read_raw
four_bytes_read = refl

four_conts : AllCont (0x80 ∷ 0xBF ∷ 0x80 ∷ 0x80 ∷ [])
four_conts = (
  omega arith,
  omega arith,
  (omega arith, omega arith, (omega arith, omega arith, (omega arith, omega arith, tt))),
)

page_stuck_example :
    ((load_window one_file opened 0 5).0 ≡ Err.ok)
    × (let (e, w, s2) = load_window one_file opened 0 5 in
        (w.text ≡ []) × (page_on one_file 3 w s2 ≡ (Err.ok, w, s2)))
page_stuck_example =
    page_stuck one_file opened 0 1 5 (0x80 ∷ 0xBF ∷ 0x80 ∷ 0x80 ∷ []) (omega arith) (omega arith)
      four_bytes_read four_conts 3
