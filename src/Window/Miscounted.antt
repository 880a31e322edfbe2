-- ===== src/Window/Miscounted.antt =====
-- `min_win` of src/min_char_window.cpp where the first two characters out of the pattern are the
-- same: `size` is one more than the list has cells from then on.
use vcpkg_test.Prelude.{
  ℕ, suc, ◌+◌, ◌-◌, ◌≤◌, ◌<◌, ◌≡◌, ◌≢◌, ◌⊎◌, refl, some, Bool, List, [], ◌∷◌, true, false, arith,
  mem, Bool-cases, inl, inr, Bytes, All, length, drop, get_elem?, Distinct, mem_self,
}
use native.Mathlib.Decide.{ℕ_discrete}
use vcpkg_test.Window.{Chars, Search, marker, fresh, scan, min_win}
use vcpkg_test.Window.Cells.{Held, Held-miss}
use vcpkg_test.Window.Order.{touch}
use vcpkg_test.Window.Pigeonhole.{missing_of_length}
use vcpkg_test.Window.Round.{Round-hit, Outcome}
use vcpkg_test.Window.Scan.{result-marker, result-window}
use vcpkg_test.Window.Start.{init_chars_lem, start-Cells}
use vcpkg_test.Window.Spec.{IsAscii, Covers, window, window_get, drop_cons, hits, FirstTwoDiffer}
use vcpkg_test.Window.Total.{count_bounds}
use vcpkg_test.Window.Moves.{counted}
use vcpkg_test.Window.Visit.{visit_miss}
use vcpkg_test.Window.Miscounts.{Miscounts, Miscounts-miss, Miscounts-hit}

-- No window is recorded, or one in which a character of the pattern is missing.
abbrev Lacking : Bytes → Bytes → ℕ → ℕ → ℕ → Type 0
Lacking pattern input cur d b =
    (d ≡ marker)
    ⊎ ((b < cur)
        × (d ≤ b)
        × ((a : ℕ) × (mem a pattern ≡ true) × ((k : ℕ) → k ≤ b → get_elem? input k ≢ some a)))

Lacking-later :
    (pattern input : Bytes) (cur d b : ℕ)
    → Lacking pattern input cur d b
    → Lacking pattern input (suc cur) d b
Lacking-later pattern input cur d b (inl e) = inl e
Lacking-later pattern input cur d b (inr (lt, le, missing)) = inr (omega arith, le, missing)

-- A list that is counted too long and whose count fits the pattern has not all of the pattern.
missing :
    (pattern input : Bytes) (cur : ℕ) (loops : Bool) (g : Chars) (order : List ℕ) (count : ℕ)
    (cs : Bytes)
    → 2 ≤ length pattern
    → Distinct pattern
    → Held pattern input (suc cur) loops g order
    → Miscounts pattern loops order count cs
    → count ≡ length pattern
    → (a : ℕ) × (mem a pattern ≡ true) × ((k : ℕ) → k ≤ cur → get_elem? input k ≢ some a)
missing pattern input cur loops g order count cs two dp held (inl (_, s, le, _)) full =
    absurd (omega arith)
missing pattern input cur loops g order count cs two dp held (inr (s, _)) full =
    let (a, m, out) =
      missing_of_length order pattern held.is_linked.distinct held.tracks.within dp
        (λ e. omega (arith, e)) in
    (a, m, λ k le. held.tracks.unseen a out m k (omega arith))

Lacking-Outcome :
    (pattern input : Bytes) (cur : ℕ) (loops : Bool) (g : Chars) (order : List ℕ) (count : ℕ)
    (cs : Bytes) (d b d' b' : ℕ)
    → 2 ≤ length pattern
    → Distinct pattern
    → Held pattern input (suc cur) loops g order
    → Miscounts pattern loops order count cs
    → Lacking pattern input cur d b
    → Outcome (length pattern) cur count d b d' b'
    → Lacking pattern input (suc cur) d' b'
Lacking-Outcome pattern input cur loops g order count cs d b d' b' two dp held mis ok (inl (e, f)) =
    rw (e, f) (Lacking-later pattern input cur d b ok)
Lacking-Outcome pattern input cur loops g order count cs d b d' b' two dp held mis ok
      (inr (full, e, le, _)) =
    rw e
      (inr (omega arith, le, missing pattern input cur loops g order count cs two dp held mis full))

abbrev Ran : Bytes → Bytes → ℕ → Bytes → Search → Type 0
Ran pattern input cur cs s =
    (e : Search) × (scan (length pattern) cur cs s ≡ some e)
    × Lacking pattern input (length input) e.min_distance e.best

module _ (pattern input : Bytes) (short : length input < marker) (two : 2 ≤ length pattern)
    (dp : Distinct pattern) where
  scan-Lacking :
      (cs : Bytes) (cur : ℕ) (looped : Bool) (h : Chars) (order : List ℕ) (size d b : ℕ)
      → Held pattern input cur looped h order
      → length order ≤ size
      → size ≤ cur
      → Miscounts pattern looped order size cs
      → Lacking pattern input cur d b
      → drop cur input ≡ cs
      → cur + length cs ≡ length input
      → All IsAscii cs
      → Ran pattern input cur cs (counted h order size d b)
  unfolding scan
  scan-Lacking [] cur looped h order size d b held low high mis ok at len ascii =
      let full : cur ≡ length input = omega arith in (counted h order size d b, refl, rw⁻¹ full ok)
  scan-Lacking (c ∷ cs) cur looped h order size d b held low high mis ok at len (ca, ascii) =
      let n = length pattern in
      let (get, rest) = drop_cons cur c input cs at in
      elim (Bool-cases (mem c pattern)) [
        | inr out ↦ rw (visit_miss n cur c (counted h order size d b) ca (held.unknown c out)) (
            scan-Lacking cs (suc cur) looped h order size d b
              (Held-miss pattern input cur looped h order held c get out) low (omega arith)
              (Miscounts-miss pattern looped order size c cs out mis)
              (Lacking-later pattern input cur d b ok) rest (omega arith) ascii)
        | inl m ↦
            let r =
              Round-hit pattern input cur looped h order n size d b held (omega arith) c get ca m
                low (omega arith) in
            let (low', high') = count_bounds looped r.loops c order size r.count low r.counts in
            let mis' =
              Miscounts-hit pattern looped r.loops order size r.count c cs m r.counts r.unlooped
                mis in
            rw r.ran (
              scan-Lacking cs (suc cur) r.loops r.cells (touch c order) r.count r.distance r.best
                r.held low' (omega arith) mis'
                (Lacking-Outcome pattern input cur r.loops r.cells (touch c order) r.count cs d b
                  r.distance r.best two dp r.held mis' ok r.outcome)
                rest (omega arith) ascii)
      ]

-- On ASCII texts, with a pattern of at least two characters that repeats none, and an input of
-- fewer than 2^64 - 1 bytes whose first two characters out of the pattern are the same, `min_win`
-- returns a text that has not every character of the pattern, also where a part of the input has.
pub min_win_miscounted :
    (input pattern : Bytes)
    → 2 ≤ length pattern
    → Distinct pattern
    → All IsAscii pattern
    → All IsAscii input
    → length input < marker
    → ¬ FirstTwoDiffer (hits pattern input)
    → (r : Bytes) × (min_win input pattern ≡ some r) × ¬ Covers pattern r
unfolding min_win
min_win_miscounted input pattern two dp pascii iascii short alike =
    let (h, e, inside, outside) = init_chars_lem pattern (λ _. fresh) pascii in
    let (s, e', ok) =
      scan-Lacking pattern input short two dp input 0 false h [] 0 marker 0
        (start-Cells pattern input h inside outside) (omega arith) (omega arith)
        (inl (refl, refl, omega arith, alike)) (inl refl) refl (omega arith) iascii in
    elim (ℕ_discrete s.min_distance marker) [
      | yes q ↦ ([], rw (e, e', result-marker input s q), λ cov. nothing_covers pattern two cov)
      | no ne ↦ elim ok [
        | inl q ↦ absurd (ne q)
        | inr (lt, le, (a, m, unseen)) ↦ (
          window input (s.best - s.min_distance) (s.min_distance + 1),
          rw (e, e', result-window input s short ne lt le),
          λ cov.
              let (k, lo, hi, _, at) =
                window_get a input (s.best - s.min_distance) (s.min_distance + 1) (cov a m) in
              unseen k (omega arith) at,
        )
      ]
    ]
  where
    nothing_covers : (pattern : Bytes) → 2 ≤ length pattern → ¬ Covers pattern []
    nothing_covers [] two cov = omega arith
    nothing_covers (p ∷ ps) two cov = cc (cov p (mem_self p ps))
