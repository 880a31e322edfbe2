-- ===== src/Window/OneWide.antt =====
-- `min_win` of src/min_char_window.cpp behind a window of one character: no other is shorter.
use vcpkg_test.Prelude.{
  ℕ, suc, ◌+◌, ◌≤◌, ◌<◌, ◌≡◌, ◌∙◌, refl, some, Bool, List, ◌∷◌, [], arith, mem, Bool-cases, inl,
  inr, Bytes, All, length, drop,
}
use vcpkg_test.Window.{Chars, Search, marker, scan}
use vcpkg_test.Window.Cells.{Held, Held-miss}
use vcpkg_test.Window.Order.{touch}
use vcpkg_test.Window.Round.{Round-hit, Outcome}
use vcpkg_test.Window.Spec.{IsAscii, drop_cons}
use vcpkg_test.Window.Total.{count_bounds}
use vcpkg_test.Window.Moves.{counted}
use vcpkg_test.Window.Visit.{visit_miss}

Outcome-zero :
    (n cur size d b d' b' : ℕ) → d ≡ 0 → Outcome n cur size d b d' b' → (d' ≡ 0) × (b' ≡ b)
Outcome-zero n cur size d b d' b' z (inl (e, f)) = (e ∙ z, f)
Outcome-zero n cur size d b d' b' z (inr (_, _, _, lt)) = absurd (omega arith)

abbrev pub Fixed : ℕ → ℕ → Bytes → ℕ → Search → Type 0
Fixed n cur cs b s = (e : Search) × (scan n cur cs s ≡ some e) × (e.min_distance ≡ 0) × (e.best ≡ b)

module _ (pattern input : Bytes) (short : length input < marker) (n : ℕ) where
  pub scan-Fixed :
      (cs : Bytes) (cur : ℕ) (looped : Bool) (h : Chars) (order : List ℕ) (size d b : ℕ)
      → Held pattern input cur looped h order
      → length order ≤ size
      → size ≤ cur
      → d ≡ 0
      → drop cur input ≡ cs
      → cur + length cs ≡ length input
      → All IsAscii cs
      → Fixed n cur cs b (counted h order size d b)
  unfolding scan
  scan-Fixed [] cur looped h order size d b held low high z at len ascii =
      (counted h order size d b, refl, z, refl)
  scan-Fixed (c ∷ cs) cur looped h order size d b held low high z at len (ca, ascii) =
      let (get, rest) = drop_cons cur c input cs at in
      elim (Bool-cases (mem c pattern)) [
        | inr out ↦ rw (visit_miss n cur c (counted h order size d b) ca (held.unknown c out)) (
            scan-Fixed cs (suc cur) looped h order size d b
              (Held-miss pattern input cur looped h order held c get out) low (omega arith) z rest
              (omega arith) ascii)
        | inl m ↦
            let r =
              Round-hit pattern input cur looped h order n size d b held (omega arith) c get ca m
                low (omega arith) in
            let (low', high') = count_bounds looped r.loops c order size r.count low r.counts in
            let (z', same) = Outcome-zero n cur r.count d b r.distance r.best z r.outcome in
            let (e, ran, ze, be) =
              scan-Fixed cs (suc cur) r.loops r.cells (touch c order) r.count r.distance r.best
                r.held low' (omega arith) z' rest (omega arith) ascii in
            rw r.ran (e, ran, ze, be ∙ same)
      ]
