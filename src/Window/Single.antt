-- ===== src/Window/Single.antt =====
-- `min_win` of src/min_char_window.cpp for a pattern of one character.
use vcpkg_test.Prelude.{
  ℕ, suc, ◌+◌, ◌<◌, ◌≡◌, ◌∙◌, sym, ap, refl, some, List, [], ◌∷◌, true, false, arith, mem,
  Bool-cases, inl, inr, Bytes, All, length, drop, mem_self,
}
use vcpkg_test.Window.{Chars, marker, scan}
use vcpkg_test.Window.Best.{Best, Best-miss, CoversAt}
use vcpkg_test.Window.Cells.{Held-miss, Cells}
use vcpkg_test.Window.OneWide.{scan-Fixed}
use vcpkg_test.Window.Order.{}
use vcpkg_test.Window.Round.{}
use vcpkg_test.Window.Scan.{Scanned}
use vcpkg_test.Window.Spec.{IsAscii, drop_cons}
use vcpkg_test.Window.Total.{}
use vcpkg_test.Window.Moves.{concrete}
use vcpkg_test.Window.Visit.{visit_miss, visit-Visited}

module _ (p : ℕ) (input : Bytes) (short : length input < marker) where
  abbrev pattern : Bytes
  pattern = p ∷ []

  -- Behind the first hit.
  scan-zero :
      (cs : Bytes) (cur : ℕ) (h : Chars) (order : List ℕ) (d b : ℕ)
      → Cells pattern input cur h order
      → d ≡ 0
      → Best pattern input cur d b
      → drop cur input ≡ cs
      → cur + length cs ≡ length input
      → All IsAscii cs
      → Scanned pattern input cur cs (concrete h order d b)
  scan-zero cs cur h order d b cells z best at len ascii =
      let (e, ran, ze, be) =
        scan-Fixed pattern input short 1 cs cur false h order (length order) d b cells (omega arith)
          cells.few z at len ascii in
      (
        e,
        ran,
        record {
          found = λ n.
              rw (ze ∙ sym z, be)
                (let (lt, le, cov) = best.found (omega arith) in (omega arith, le, cov));
          least = λ i j lt cov. let (k, lo, hi, _) = cov p (mem_self p []) in omega arith;
        },
      )

  only : (a : ℕ) → mem a pattern ≡ true → a ≡ p
  only a m = ground arith

  -- The whole loop, with no hit so far.
  pub scan-single :
      (cs : Bytes) (cur : ℕ) (h : Chars)
      → Cells pattern input cur h []
      → Best pattern input cur marker 0
      → drop cur input ≡ cs
      → cur + length cs ≡ length input
      → All IsAscii cs
      → Scanned pattern input cur cs (concrete h [] marker 0)
  unfolding scan
  scan-single [] cur h cells best at len ascii =
      let full : cur ≡ length input = omega arith in (concrete h [] marker 0, refl, rw⁻¹ full best)
  scan-single (c ∷ cs) cur h cells best at len (ca, ascii) =
      let (get, rest) = drop_cons cur c input cs at in
      elim (Bool-cases (mem c pattern)) [
        | inr out ↦ rw (visit_miss 1 cur c (concrete h [] marker 0) ca (cells.unknown c out)) (
            scan-single cs (suc cur) h (Held-miss pattern input cur false h [] cells c get out)
              (Best-miss pattern input cur marker 0 best c p get out (mem_self p [])) rest
              (omega arith) ascii)
        | inl m ↦
            let (g, order, d, b, e, cells', best', q) =
              visit-Visited pattern input cur h [] marker 0 cells best (omega arith) c get ca p
                (mem_self p []) (refl, tt) (λ _ f. cc f) in
            let here : CoversAt pattern input cur cur =
              λ a i. (cur, omega arith, omega arith, get ∙ ap some (only c m ∙ sym (only a i))) in
            rw e (
              scan-zero cs (suc cur) g order d b cells'
                (omega (arith, best'.least cur cur (omega arith) here)) best' rest (omega arith)
                ascii)
      ]
