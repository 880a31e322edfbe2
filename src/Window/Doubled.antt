-- ===== src/Window/Doubled.antt =====
-- `min_win` of src/min_char_window.cpp for a pattern of two characters, on inputs that begin with
-- one of them twice.
use vcpkg_test.Prelude.{
  ℕ, ◌+◌, ◌-◌, ◌<◌, ◌≡◌, ◌⊎◌, ◌∙◌, inl, inr, refl, ap, subst, true, false, some, [], ◌∷◌, ◌==◌,
  Bytes, All, mem, length, arith, mem_self, mem_cons, ltb, if◌then◌else◌,
}
use vcpkg_test.Window.{marker, Chars, fresh, measure, visit, scan, result, min_win}
use vcpkg_test.Window.Cells.{Held, Held-touch, Cells, Cells-hit, IsLinked-with_pos, with_pos}
use vcpkg_test.Window.OneWide.{scan-Fixed}
use vcpkg_test.Window.Order.{touch, touch_lem, touch_split}
use vcpkg_test.Window.Scan.{result-window}
use vcpkg_test.Window.Spec.{IsAscii, IsShortest, IsAbsent, window}
use vcpkg_test.Window.Start.{init_chars_lem, start-Cells}
use vcpkg_test.Window.Moves.{counted, concrete}
use vcpkg_test.Window.Touch.{touch_twice}
use vcpkg_test.Window.Visit.{visit_hit, measure_short, measure_full}

module _ (c d : ℕ) (rest : Bytes) (ascii : IsAscii c) (fits : length (c ∷ c ∷ rest) < marker) where
  abbrev pattern : Bytes
  pattern = c ∷ d ∷ []

  abbrev input : Bytes
  input = c ∷ c ∷ rest

  -- The first round: `c` is the only cell of the list.
  visit-first :
      (h : Chars)
      → Cells pattern input 0 h []
      → (g : Chars) × (visit 2 0 c (counted h [] 0 marker 0) ≡ some (counted g (c ∷ []) 1 marker 0))
        × Cells pattern input 1 g (c ∷ [])
  visit-first h cells =
      let here = mem_self c (d ∷ []) in
      let (g, moved, cells', _) =
        Cells-hit pattern input 0 h [] cells (omega arith) c refl marker 0 here (λ e. cc e) in
      let t : touch c [] ≡ c ∷ [] = touch_lem c [] refl in
      (
        g,
        visit_hit 2 0 c h [] 0 marker 0 (concrete g (touch c []) marker 0) ascii
              (cells.known c here) moved
            ∙ measure_short 2 0 (concrete g (touch c []) marker 0)
                (λ e. omega (arith, ap length t, e))
            ∙ ap (λ o. some (concrete g o marker 0)) t,
        subst (Cells pattern input 1 g) t cells',
      )

  -- The second one: the cell is counted twice, and taken for a window that covers the pattern.
  visit-second :
      (h : Chars)
      → Cells pattern input 1 h (c ∷ [])
      → (g : Chars) × (visit 2 1 c (counted h (c ∷ []) 1 marker 0)
          ≡ some (counted g (c ∷ []) 2 0 1))
        × Held pattern input 2 true g (c ∷ [])
  visit-second h cells =
      let here = mem_self c (d ∷ []) in
      let k = IsLinked-with_pos false h c 1 (c ∷ []) cells.is_linked in
      let (g, moved, k', r) = touch_twice (with_pos h c 1) c 1 marker 0 k (omega arith) in
      let (held, at_c) =
        Held-touch pattern input 1 false h (c ∷ []) cells (omega arith) c refl here true g k' r in
      let t : touch c (c ∷ []) ≡ c ∷ [] = touch_split c [] [] refl in
      let full = measure_full 2 1 g c [] 2 marker 0 refl (omega (arith, at_c)) (omega arith) in
      (
        g,
        visit_hit 2 1 c h (c ∷ []) 1 marker 0 (counted g (touch c (c ∷ [])) 2 marker 0) ascii
              (cells.known c here) moved
            ∙ ap (λ o. measure 2 1 (counted g o 2 marker 0)) t
            ∙ full
            ∙ ap
                (λ p. some (
                  counted g (c ∷ []) 2 (if ltb (1 - p) marker then 1 - p else marker)
                    (if ltb (1 - p) marker then 1 else 0)))
                at_c,
        subst (Held pattern input 2 true g) t held,
      )

-- On an ASCII input of fewer than 2^64 - 1 bytes that begins with `c` twice, for a pattern of `c`
-- and another character `d`, `min_win` returns `c`: neither a shortest part that has both, nor the
-- empty string, which the absence of one demands.
pub min_win_doubled :
    (c d : ℕ) (rest : Bytes)
    → (c == d) ≡ false
    → IsAscii c
    → IsAscii d
    → All IsAscii rest
    → length (c ∷ c ∷ rest) < marker
    → (min_win (c ∷ c ∷ rest) (c ∷ d ∷ []) ≡ some (c ∷ []))
      × ¬ (
          IsShortest (c ∷ d ∷ []) (c ∷ c ∷ rest) (c ∷ [])
          ⊎ IsAbsent (c ∷ d ∷ []) (c ∷ c ∷ rest) (c ∷ []))
unfolding min_win scan
min_win_doubled c d rest apart ascii ascii' all fits =
    let input = c ∷ c ∷ rest in
    let pattern = c ∷ d ∷ [] in
    let (h, set_up, inside, outside) = init_chars_lem pattern (λ _. fresh) (ascii, (ascii', tt)) in
    let (h1, first, cells1) =
      visit-first c d rest ascii fits h (start-Cells pattern input h inside outside) in
    let (h2, second, held) = visit-second c d rest ascii fits h1 cells1 in
    let (s, ran, zero_wide, at_1) =
      scan-Fixed pattern input fits 2 rest 2 true h2 (c ∷ []) 2 0 1 held (omega arith) (omega arith)
        refl refl (omega arith) all in
    let answer : result input s ≡ some (c ∷ []) =
      result-window input s fits (omega (arith, zero_wide)) (omega (arith, at_1))
        (omega (arith, zero_wide))
      ∙ ap (λ w. some w) (λ i. window input (at_1 i - zero_wide i) (zero_wide i + 1)) in
    (rw (set_up, first, second, ran) answer, refuted)
  where
    refuted : ¬ (
        IsShortest (c ∷ d ∷ []) (c ∷ c ∷ rest) (c ∷ [])
        ⊎ IsAbsent (c ∷ d ∷ []) (c ∷ c ∷ rest) (c ∷ []))
    refuted (inl shortest) =
        cc (not-mem-first, shortest.covers d (mem_cons d c (d ∷ []) (mem_self d [])))
      where
        not-mem-first : mem d (c ∷ []) ≡ false
        not-mem-first = ground arith
    refuted (inr absent) = cc (absent.empty)
