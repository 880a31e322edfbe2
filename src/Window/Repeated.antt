-- ===== src/Window/Repeated.antt =====
-- `min_win` of src/min_char_window.cpp for a pattern that repeats a character: the list holds each
-- character once, so that `size` never reaches the length of the pattern.
use vcpkg_test.Prelude.{
  ℕ, suc, ◌+◌, ◌<◌, ◌≡◌, ◌≢◌, ◌⊎◌, ◌∙◌, sym, refl, some, List, [], ◌∷◌, ◌++◌, true, false, arith,
  ◌==◌, if◌then◌else◌, mem, Bool-cases, inl, inr, Bytes, All, length, Distinct, drop, get_elem?,
  ==→eq, subst,
}
use vcpkg_test.Window.{Chars, Search, marker, fresh, min_win, scan, visit}
use vcpkg_test.Window.Cells.{Cells, Cells-hit, Held-miss}
use vcpkg_test.Window.Order.{erase, touch, mem-erase, mem-of-erase}
use vcpkg_test.Window.Pigeonhole.{Within, length-erase, length-le-Within}
use vcpkg_test.Window.Scan.{result-marker, not_alone, still_differ}
use vcpkg_test.Window.Start.{init_chars_lem, start-Cells}
use vcpkg_test.Window.Spec.{
  IsAscii, Covers, window, IsShortest, IsAbsent, hits, FirstTwoDiffer, drop_cons,
}
use vcpkg_test.Window.Moves.{concrete}
use vcpkg_test.Window.Visit.{measure_short, visit_hit, visit_miss}

-- A character that is left when it is taken out once.
abbrev Repeat : Bytes → Type 0
Repeat xs = (p : ℕ) × (mem p (erase p xs) ≡ true)

find-Repeat : (xs : Bytes) → Distinct xs ⊎ Repeat xs
unfolding erase
find-Repeat [] = inl tt
find-Repeat (x ∷ xs) = elim (Bool-cases (mem x xs)) [
  | inl m ↦ inr (x, ground arith)
  | inr out ↦ later out (find-Repeat xs)
]
  where
    later : mem x xs ≡ false → Distinct xs ⊎ Repeat xs → Distinct (x ∷ xs) ⊎ Repeat (x ∷ xs)
    later out (inl d) = inl (out, d)
    later out (inr (p, m)) =
        let q : (p == x) ≡ false = ground (arith, mem-of-erase p p xs m) in inr (p, ground arith)

-- A list of distinct characters of the pattern is shorter than the pattern.
length-lt-Repeat :
    (order pattern : List ℕ)
    → Repeat pattern
    → Distinct order
    → Within order pattern
    → length order < length pattern
length-lt-Repeat order pattern (p, m) d sub =
    let within : Within order (erase p pattern) = λ a i. elim (Bool-cases (a == p)) [
      | inl e ↦ subst (λ b. mem b (erase p pattern) ≡ true) (sym (==→eq a p e)) m
      | inr e ↦ mem-erase a p pattern e ∙ sub a i
    ] in
    omega (
      arith,
      length-erase p pattern (mem-of-erase p p pattern m),
      length-le-Within order (erase p pattern) d within,
    )

-- A round that leaves the answer alone.
abbrev Kept : Bytes → Bytes → ℕ → ℕ → Chars → List ℕ → ℕ → ℕ → Type 0
Kept pattern input cur c h order d b =
    (g : Chars) × (order' : List ℕ) × (visit (length pattern) cur c (concrete h order d b)
      ≡ some (concrete g order' d b))
    × Cells pattern input (suc cur) g order'
    × (order' ≡ (if mem c pattern then touch c order else order))

module _ (pattern input : Bytes) (twice : Repeat pattern) (d b : ℕ) where
  visit-Kept :
      (cur : ℕ) (h : Chars) (order : List ℕ)
      → Cells pattern input cur h order
      → suc cur < marker
      → (c : ℕ) → get_elem? input cur ≡ some c
      → IsAscii c
      → (mem c pattern ≡ true → order ≢ c ∷ [])
      → Kept pattern input cur c h order d b
  visit-Kept cur h order cells small c at ascii more = elim (Bool-cases (mem c pattern)) [
    | inr out ↦ (
      h,
      order,
      visit_miss (length pattern) cur c (concrete h order d b) ascii (cells.unknown c out),
      Held-miss pattern input cur false h order cells c at out,
      rw out,
    )
    | inl m ↦
        let (g, e, cells', at_c) =
          Cells-hit pattern input cur h order cells small c at d b m (more m) in
        let order' = touch c order in
        let fewer =
          length-lt-Repeat order' pattern twice cells'.is_linked.distinct cells'.tracks.within in
        (
          g,
          order',
          visit_hit (length pattern) cur c h order (length order) d b (concrete g order' d b) ascii
                (cells.known c m) e
              ∙ measure_short (length pattern) cur (concrete g order' d b) (omega (arith, fewer)),
          cells',
          rw m,
        )
  ]

  -- No window is ever recorded.
  scan-kept :
      (cs : Bytes) (cur : ℕ) (h : Chars) (order : List ℕ)
      → Cells pattern input cur h order
      → length input < marker
      → drop cur input ≡ cs
      → cur + length cs ≡ length input
      → All IsAscii cs
      → FirstTwoDiffer (order ++ hits pattern cs)
      → (e : Search) × (scan (length pattern) cur cs (concrete h order d b) ≡ some e)
        × (e.min_distance ≡ d)
  unfolding scan
  scan-kept [] cur h order cells short at len ascii differ = (concrete h order d b, refl, refl)
  scan-kept (c ∷ cs) cur h order cells short at len (ca, ascii) differ =
      let (get, rest) = drop_cons cur c input cs at in
      let (g, order', e, cells', q) =
        visit-Kept cur h order cells (omega arith) c get ca (not_alone pattern c cs order differ) in
      rw e (
        scan-kept cs (suc cur) g order' cells' short rest (omega arith) ascii
          (still_differ pattern c cs order differ order' cells'.is_linked.distinct q))

repeated :
    (input pattern : Bytes)
    → Repeat pattern
    → All IsAscii pattern
    → All IsAscii input
    → length input < marker
    → FirstTwoDiffer (hits pattern input)
    → min_win input pattern ≡ some []
unfolding min_win
repeated input pattern twice pascii iascii short differ =
    let (h, e, inside, outside) = init_chars_lem pattern (λ _. fresh) pascii in
    let (s, e', kept) =
      scan-kept pattern input twice marker 0 input 0 h []
        (start-Cells pattern input h inside outside) short refl (omega arith) iascii differ in
    rw (e, e', result-marker input s kept)

-- On ASCII texts, with a pattern that repeats a character and an input of fewer than 2^64 - 1 bytes
-- whose first two characters out of the pattern differ (if it has two), `min_win` returns the empty
-- string. Where some part of the input has every character of the pattern, that is neither a
-- shortest such part nor right as the answer that there is none.
pub min_win_repeated :
    (input pattern : Bytes)
    → ¬ Distinct pattern
    → All IsAscii pattern
    → All IsAscii input
    → length input < marker
    → FirstTwoDiffer (hits pattern input)
    → (min_win input pattern ≡ some [])
      × ¬ (
          ((i : ℕ) × (n : ℕ) × Covers pattern (window input i n))
          × (IsShortest pattern input [] ⊎ IsAbsent pattern input []))
min_win_repeated input pattern repeats pascii iascii short differ = elim (find-Repeat pattern) [
  | inl d ↦ absurd (repeats d)
  | inr (p, m) ↦ (
    repeated input pattern (p, m) pascii iascii short differ,
    λ ((i, n, cov), right). elim right [
      | inl s ↦ absurd (cc (s.covers p (mem-of-erase p p pattern m)))
      | inr a ↦ a.no_window i n cov
    ],
  )
]
