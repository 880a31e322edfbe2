-- ===== src/Window/Total.antt =====
-- `min_win` of src/min_char_window.cpp on all ASCII texts: no round has undefined behaviour, and no
-- exception leaves it.
use vcpkg_test.Prelude.{
  ℕ, suc, ◌+◌, ◌-◌, ◌≤◌, ◌<◌, ◌≡◌, ◌⊎◌, sym, ap, refl, some, Bool, List, [], ◌∷◌, false, arith, mem,
  Bool-cases, inl, inr, Bytes, All, length, drop, length-take, length-drop,
}
use native.Mathlib.Decide.{ℕ_discrete}
use vcpkg_test.Window.{Chars, Search, marker, fresh, scan, min_win}
use vcpkg_test.Window.Cells.{Held, Held-miss}
use vcpkg_test.Window.Order.{touch, length-touch-le}
use vcpkg_test.Window.Round.{Round-hit, Outcome, Counts}
use vcpkg_test.Window.Scan.{result-marker, result-window}
use vcpkg_test.Window.Start.{init_chars_lem, start-Cells}
use vcpkg_test.Window.Spec.{IsAscii, window, drop_cons}
use vcpkg_test.Window.Moves.{counted}
use vcpkg_test.Window.Visit.{visit_miss}

-- No window is recorded, or one that lies in the first `cur` characters.
abbrev pub InRange : ℕ → ℕ → ℕ → Type 0
InRange cur d b = (d ≡ marker) ⊎ ((b < cur) × (d ≤ b))

InRange-later : (cur d b : ℕ) → InRange cur d b → InRange (suc cur) d b
InRange-later cur d b (inl e) = inl e
InRange-later cur d b (inr (lt, le)) = inr (omega arith, le)

InRange-Outcome :
    (n cur size d b d' b' : ℕ)
    → InRange cur d b
    → Outcome n cur size d b d' b'
    → InRange (suc cur) d' b'
InRange-Outcome n cur size d b d' b' ok (inl (e, f)) = rw (e, f) (InRange-later cur d b ok)
InRange-Outcome n cur size d b d' b' ok (inr (full, e, le, _)) = inr (omega arith, omega arith)

pub count_bounds :
    (looped loops : Bool) (c : ℕ) (order : List ℕ) (size count : ℕ)
    → length order ≤ size
    → Counts looped loops c order size count
    → (length (touch c order) ≤ count) × (count ≤ suc size)
count_bounds looped loops c order size count le (inl (_, _, e)) =
    (omega (arith, length-touch-le c order), omega (arith, length-touch-le c order))
count_bounds looped loops c order size count le (inr (e, _, _, f)) =
    (omega (arith, length-touch-le c order), omega arith)

abbrev Ran : Bytes → ℕ → ℕ → Bytes → Search → Type 0
Ran input n cur cs s =
    (e : Search) × (scan n cur cs s ≡ some e) × InRange (length input) e.min_distance e.best

module _ (pattern input : Bytes) (short : length input < marker) (n : ℕ) where
  scan_total :
      (cs : Bytes) (cur : ℕ) (looped : Bool) (h : Chars) (order : List ℕ) (size d b : ℕ)
      → Held pattern input cur looped h order
      → length order ≤ size
      → size ≤ cur
      → InRange cur d b
      → drop cur input ≡ cs
      → cur + length cs ≡ length input
      → All IsAscii cs
      → Ran input n cur cs (counted h order size d b)
  unfolding scan
  scan_total [] cur looped h order size d b held low high ok at len ascii =
      let full : cur ≡ length input = omega arith in (counted h order size d b, refl, rw⁻¹ full ok)
  scan_total (c ∷ cs) cur looped h order size d b held low high ok at len (ca, ascii) =
      let (get, rest) = drop_cons cur c input cs at in
      elim (Bool-cases (mem c pattern)) [
        | inr out ↦ rw (visit_miss n cur c (counted h order size d b) ca (held.unknown c out)) (
            scan_total cs (suc cur) looped h order size d b
              (Held-miss pattern input cur looped h order held c get out) low (omega arith)
              (InRange-later cur d b ok) rest (omega arith) ascii)
        | inl m ↦
            let r =
              Round-hit pattern input cur looped h order n size d b held (omega arith) c get ca m
                low (omega arith) in
            let (low', high') = count_bounds looped r.loops c order size r.count low r.counts in
            rw r.ran (
              scan_total cs (suc cur) r.loops r.cells (touch c order) r.count r.distance r.best
                r.held low' (omega arith)
                (InRange-Outcome n cur r.count d b r.distance r.best ok r.outcome) rest
                (omega arith) ascii)
      ]

-- `r` is a part of the input.
abbrev pub IsPart : Bytes → Bytes → Type 0
IsPart input r = (i : ℕ) × (i + length r ≤ length input) × (r ≡ window input i (length r))

IsPart-window :
    (input : Bytes) (b d : ℕ)
    → b < length input
    → d ≤ b
    → IsPart input (window input (b - d) (d + 1))
IsPart-window input b d lt le =
    let r = window input (b - d) (d + 1) in
    let long : length r ≡ d + 1 =
      omega (arith, length-take (d + 1) (drop (b - d) input), length-drop (b - d) input) in
    (b - d, omega arith, ap (window input (b - d)) (sym long))

-- On all ASCII texts with an input of fewer than 2^64 - 1 bytes, whatever the pattern repeats and
-- however the input begins: `min_win` follows no null pointer, uses no index out of range and
-- throws nothing, and what it returns is a part of the input.
pub min_win_total :
    (input pattern : Bytes)
    → All IsAscii pattern
    → All IsAscii input
    → length input < marker
    → (r : Bytes) × (min_win input pattern ≡ some r) × IsPart input r
unfolding min_win
min_win_total input pattern pascii iascii short =
    let (h, e, inside, outside) = init_chars_lem pattern (λ _. fresh) pascii in
    let (s, e', ok) =
      scan_total pattern input short (length pattern) input 0 false h [] 0 marker 0
        (start-Cells pattern input h inside outside) (omega arith) (omega arith) (inl refl) refl
        (omega arith) iascii in
    elim (ℕ_discrete s.min_distance marker) [
      | yes q ↦ ([], rw (e, e', result-marker input s q), (0, omega arith, refl))
      | no ne ↦ elim ok [
        | inl q ↦ absurd (ne q)
        | inr (lt, le) ↦ (
          window input (s.best - s.min_distance) (s.min_distance + 1),
          rw (e, e', result-window input s short ne lt le),
          IsPart-window input s.best s.min_distance lt le,
        )
      ]
    ]
