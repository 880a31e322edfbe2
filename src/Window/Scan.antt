-- ===== src/Window/Scan.antt =====
-- The whole loop of `min_win`, and what follows it.
use vcpkg_test.Prelude.{
  ℕ, suc, ◌+◌, ◌-◌, ◌%◌, ◌^◌, ◌≤◌, ◌<◌, ◌≡◌, ◌≢◌, ◌∙◌, sym, ap, subst, refl, some, List, [], ◌∷◌,
  ◌++◌, true, false, arith, ◌==◌, ltb, if◌then◌else◌, mem, Bool-cases, inl, inr, Bytes, All, length,
  min, length-take, length-drop, drop, Distinct,
}
use vcpkg_test.Window.{Chars, Search, marker, scan, result, substr}
use vcpkg_test.Window.Best.{Best, CoversAt}
use vcpkg_test.Window.Spec.{
  IsAscii, Covers, window, IsShortest, IsAbsent, hits, FirstTwoDiffer, window_get, get_window,
  drop_cons,
}
use vcpkg_test.Window.Order.{touch, touch_lem, length-touch_new, length-touch-ge}
use vcpkg_test.Window.Moves.{concrete}
use vcpkg_test.Window.Cells.{Cells}
use vcpkg_test.Window.Visit.{visit-Visited}

FirstTwoDiffer-Distinct : (xs ys : List ℕ) → Distinct xs → 2 ≤ length xs → FirstTwoDiffer (xs ++ ys)
FirstTwoDiffer-Distinct [] ys d h = absurd (omega arith)
FirstTwoDiffer-Distinct (x ∷ []) ys d h = absurd (omega arith)
FirstTwoDiffer-Distinct (x ∷ y ∷ xs) ys (out, d) h = λ e. ground arith

FirstTwoDiffer-touch :
    (c : ℕ) (order hs : List ℕ)
    → Distinct (touch c order)
    → FirstTwoDiffer (order ++ c ∷ hs)
    → FirstTwoDiffer (touch c order ++ hs)
FirstTwoDiffer-touch c [] hs d f = rw (touch_lem c [] refl) f
FirstTwoDiffer-touch c (x ∷ []) hs d f =
    let out : mem c (x ∷ []) ≡ false = ground (arith, λ (e : x ≡ c). f e) in
    FirstTwoDiffer-Distinct (touch c (x ∷ [])) hs d (omega (arith, length-touch_new c (x ∷ []) out))
FirstTwoDiffer-touch c (x ∷ y ∷ xs) hs d f =
    FirstTwoDiffer-Distinct (touch c (x ∷ y ∷ xs)) hs d
      (length-touch-ge c (x ∷ y ∷ xs) (omega arith))

module _ (pattern : Bytes) (c : ℕ) (cs order : Bytes)
    (differ : FirstTwoDiffer (order ++ hits pattern (c ∷ cs))) where
  pub not_alone : mem c pattern ≡ true → order ≢ c ∷ []
  not_alone m e =
      let d =
        subst (λ b. FirstTwoDiffer (order ++ (if b then c ∷ hits pattern cs else hits pattern cs)))
          m differ in
      subst (λ o. FirstTwoDiffer (o ++ c ∷ hits pattern cs)) e d refl

  pub still_differ :
      (order' : List ℕ)
      → Distinct order'
      → order' ≡ (if mem c pattern then touch c order else order)
      → FirstTwoDiffer (order' ++ hits pattern cs)
  still_differ order' d q = elim (Bool-cases (mem c pattern)) [
    | inl m ↦
        let e : order' ≡ touch c order = q ∙ ap (λ b. if b then touch c order else order) m in
        subst (λ o. FirstTwoDiffer (o ++ hits pattern cs)) (sym e)
          (FirstTwoDiffer-touch c order (hits pattern cs) (subst Distinct e d) (
            subst
              (λ b. FirstTwoDiffer (order ++ (if b then c ∷ hits pattern cs else hits pattern cs)))
              m differ))
    | inr o ↦
        let e : order' ≡ order = q ∙ ap (λ b. if b then touch c order else order) o in
        subst (λ o. FirstTwoDiffer (o ++ hits pattern cs)) (sym e)
          (subst
            (λ b. FirstTwoDiffer (order ++ (if b then c ∷ hits pattern cs else hits pattern cs))) o
            differ)
  ]

pub result-marker :
    (input : Bytes) (s : Search) → s.min_distance ≡ marker → result input s ≡ some []
unfolding result
result-marker input s e = rw e

pub result-window :
    (input : Bytes) (s : Search)
    → length input < marker
    → s.min_distance ≢ marker
    → s.best < length input
    → s.min_distance ≤ s.best
    → result input s ≡ some (window input (s.best - s.min_distance) (s.min_distance + 1))
unfolding result substr
result-window input s short ne lt le =
    let d = s.min_distance in
    let unmarked : (d == marker) ≡ false = ground arith in
    let from : (s.best + 2 ^ 64 - d) % 2 ^ 64 ≡ s.best - d = omega arith in
    let count : (d + 1) % 2 ^ 64 ≡ d + 1 = omega arith in
    let within : ltb (length input) (s.best - d) ≡ false = ground arith in
    rw (unmarked, from, count, within)

abbrev pub Scanned : Bytes → Bytes → ℕ → Bytes → Search → Type 0
Scanned pattern input cur cs s =
    (e : Search) × (scan (length pattern) cur cs s ≡ some e)
    × Best pattern input (length input) e.min_distance e.best

module _ (p : ℕ) (pattern input : Bytes) (some_p : mem p pattern ≡ true) (dp : Distinct pattern)
    (short : length input < marker) where
  pub scan-Best :
      (cs : Bytes) (cur : ℕ) (h : Chars) (order : List ℕ) (d b : ℕ)
      → Cells pattern input cur h order
      → Best pattern input cur d b
      → drop cur input ≡ cs
      → cur + length cs ≡ length input
      → All IsAscii cs
      → FirstTwoDiffer (order ++ hits pattern cs)
      → Scanned pattern input cur cs (concrete h order d b)
  unfolding scan
  scan-Best [] cur h order d b cells best at len ascii differ =
      let full : cur ≡ length input = omega arith in
      (concrete h order d b, refl, subst (λ n. Best pattern input n d b) full best)
  scan-Best (c ∷ cs) cur h order d b cells best at len (ca, ascii) differ =
      let (get, rest) = drop_cons cur c input cs at in
      let (g, order', d', b', e, cells', best', q) =
        visit-Visited pattern input cur h order d b cells best (omega arith) c get ca p some_p dp
          (not_alone pattern c cs order differ) in
      rw e (
        scan-Best cs (suc cur) g order' d' b' cells' best' rest (omega arith) ascii
          (still_differ pattern c cs order differ order' cells'.is_linked.distinct q))

  CoversAt-of-Covers :
      (i n : ℕ)
      → Covers pattern (window input i n)
      → (j : ℕ) × (j < length input) × (suc j ≤ i + n) × CoversAt pattern input i j
  CoversAt-of-Covers i n cov =
      let (k0, lo0, hi0, len0, _) = window_get p input i n (cov p some_p) in
      let j = min (i + n - 1) (length input - 1) in
      (
        j,
        omega arith,
        omega arith,
        λ c m.
            let (k, lo, hi, len, e) = window_get c input i n (cov c m) in (k, lo, omega arith, e),
      )

  pub shortest :
      (d b : ℕ)
      → d ≢ marker
      → Best pattern input (length input) d b
      → IsShortest pattern input (window input (b - d) (d + 1))
  shortest d b ne best =
      let (lt, le, cov) = best.found ne in
      let r = window input (b - d) (d + 1) in
      let len : length r ≡ d + 1 =
        omega (arith, length-take (d + 1) (drop (b - d) input), length-drop (b - d) input) in
      record {
        at = b - d;
        inside = omega arith;
        is_window = ap (window input (b - d)) (sym len);
        covers = λ c m.
            let (k, lo, hi, e) = cov c m in get_window c input (b - d) (d + 1) k lo (omega arith) e;
        least = λ i n w.
            let (j, jl, jn, at) = CoversAt-of-Covers i n w in omega (arith, best.least i j jl at);
      }

  pub absent :
      (d b : ℕ) → d ≡ marker → Best pattern input (length input) d b → IsAbsent pattern input []
  absent d b e best = record {
    empty = refl;
    no_window = λ i n w.
        let (j, jl, jn, at) = CoversAt-of-Covers i n w in omega (arith, best.least i j jl at);
  }
