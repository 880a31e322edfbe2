-- ===== src/Window/Shortest.antt =====
-- `min_win` as a whole.
use vcpkg_test.Prelude.{
  ℕ, ◌<◌, ◌≡◌, ◌≢◌, ◌⊎◌, ap, refl, some, [], ◌∷◌, true, arith, mem, inl, inr, mem_self, Bytes, All,
  length, Distinct,
}
use native.Mathlib.Decide.{ℕ_discrete}
use vcpkg_test.Window.{Chars, Search, marker, fresh, result, min_win}
use vcpkg_test.Window.Best.{Best}
use vcpkg_test.Window.Cells.{Cells}
use vcpkg_test.Window.Single.{scan-single}
use vcpkg_test.Window.Moves.{concrete}
use vcpkg_test.Window.Scan.{Scanned, scan-Best, shortest, absent, result-marker, result-window}
use vcpkg_test.Window.Start.{init_chars_lem, start-Cells}
use vcpkg_test.Window.Spec.{IsAscii, IsShortest, IsAbsent, hits, FirstTwoDiffer}

start-Best : (pattern input : Bytes) → Best pattern input 0 marker 0
start-Best pattern input = record {
  found = λ n. absurd (n refl);
  least = λ i j lt cov. absurd (omega arith);
}

-- A search that ends with the best window gives the answer.
abbrev Answers : Bytes → Bytes → Search → Type 0
Answers pattern input s =
    (r : Bytes) × (result input s ≡ some r)
    × (IsShortest pattern input r ⊎ IsAbsent pattern input r)

answer :
    (p : ℕ) (pattern input : Bytes)
    → mem p pattern ≡ true
    → Distinct pattern
    → length input < marker
    → (s : Search) → Best pattern input (length input) s.min_distance s.best
    → Answers pattern input s
answer p pattern input some_p dp short s best = elim (ℕ_discrete s.min_distance marker) [
  | yes e ↦ (
    [],
    result-marker input s e,
    inr (absent p pattern input some_p dp short s.min_distance s.best e best),
  )
  | no ne ↦
      let (lt, le, _) = best.found ne in
      (
        _,
        result-window input s short ne lt le,
        inl (shortest p pattern input some_p dp short s.min_distance s.best ne best),
      )
]

-- The loop finds the best window for a pattern of one character, and where the first two hits
-- differ.
scanned :
    (p : ℕ) (ps input : Bytes)
    → Distinct (p ∷ ps)
    → length input < marker
    → (length (p ∷ ps) ≡ 1) ⊎ FirstTwoDiffer (hits (p ∷ ps) input)
    → (h : Chars) → Cells (p ∷ ps) input 0 h []
    → All IsAscii input
    → Scanned (p ∷ ps) input 0 input (concrete h [] marker 0)
scanned p ps input dp short (inr differ) h cells ascii =
    scan-Best p (p ∷ ps) input (mem_self p ps) dp short input 0 h [] marker 0 cells
      (start-Best (p ∷ ps) input) refl (omega arith) ascii differ
scanned p [] input dp short (inl one) h cells ascii =
    scan-single p input short input 0 h cells (start-Best (p ∷ []) input) refl (omega arith) ascii
scanned p (q ∷ ps) input dp short (inl one) h cells ascii = absurd (omega arith)

-- On ASCII texts, with a non-empty pattern that repeats no character, and an input of fewer than
-- 2^64 - 1 bytes: if the pattern is one character, or the first two characters of the input out of
-- the pattern differ (if it has two), `min_win` neither faults nor throws, and it returns a
-- shortest part of the input that has every character of the pattern, or the empty string where
-- there is no such part.
pub min_win_lem :
    (input pattern : Bytes)
    → pattern ≢ []
    → Distinct pattern
    → All IsAscii pattern
    → All IsAscii input
    → length input < marker
    → (length pattern ≡ 1) ⊎ FirstTwoDiffer (hits pattern input)
    → (r : Bytes) × (min_win input pattern ≡ some r)
      × (IsShortest pattern input r ⊎ IsAbsent pattern input r)
unfolding min_win
min_win_lem input [] nonempty dp ap ai short differ = absurd (nonempty refl)
min_win_lem input (p ∷ ps) nonempty dp pascii iascii short differ =
    let pattern = p ∷ ps in
    let (h, e, inside, outside) = init_chars_lem pattern (λ _. fresh) pascii in
    let (s, e', best) =
      scanned p ps input dp short differ h (start-Cells pattern input h inside outside) iascii in
    let (r, e'', ok) = answer p pattern input (mem_self p ps) dp short s best in
    (r, rw (e, e', e''), ok)
