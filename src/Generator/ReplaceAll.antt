-- ===== src/Generator/ReplaceAll.antt =====
-- `replaceAll` of src/gz/Generator.cc: its rounds, its end, a replacement that is much shorter.
use Prim.Native.Nat.mul
use vcpkg_test.Prelude.{
  ℕ, zero, suc, ◌+◌, ◌-◌, ◌*◌, ◌%◌, ◌^◌, ◌≤◌, ◌<◌, ◌≡◌, ap₂, ◌∙◌, none, some, ◌++◌, arith, Bytes,
  length, Option-cases, take, drop, inl, inr, length-append, size_max,
}
use vcpkg_test.Text.{
  find, find_bounds, find_behind, replace_inside, length-replace, take_before, drop_behind,
}
use vcpkg_test.Generator.{replace_loop, replace_all}

-- The position of the next search.
abbrev pub next : ℕ → Bytes → Bytes → ℕ
next p old new = (p + length new + 2 ^ 64 - length old + 1) % 2 ^ 64

abbrev pub spliced : Bytes → ℕ → Bytes → Bytes → Bytes
spliced src p old new = take p src ++ (new ++ drop (p + length old) src)

module _ (fuel : ℕ) (old new : Bytes) (i : ℕ) (src : Bytes) where
  pub loop_none : find src old i ≡ none → replace_loop (suc fuel) old new i src ≡ some src
  unfolding replace_loop
  loop_none e = rw (e, replace_loop)

  pub loop_some :
      (p : ℕ)
      → find src old i ≡ some p
      → replace_loop (suc fuel) old new i src
        ≡ replace_loop fuel old new (next p old new) (spliced src p old new)
  unfolding replace_loop
  loop_some p e = rw (
    e,
    replace_loop,
    replace_inside src p (length old) new (omega (arith, find_bounds src old i p e)),
  )

-- `k` bounds the bytes that are left to search.
loop_total :
    (fuel k : ℕ) (old new : Bytes) (i : ℕ) (src : Bytes)
    → suc (length src) ≤ i + k
    → length src + k * length new < size_max
    → k < fuel
    → (r : Bytes) × (replace_loop fuel old new i src ≡ some r)
loop_total zero k old new i src left fits more = absurd (omega arith)
loop_total (suc fuel) zero old new i src left fits more =
    (src, loop_none fuel old new i src (find_behind src old i (omega arith)))
loop_total (suc fuel) (suc k) old new i src left fits more = elim (Option-cases (find src old i)) [
  | inl e ↦ (src, loop_none fuel old new i src e)
  | inr (p, e) ↦
      let (lo, hi) = find_bounds src old i p e in
      let len : length (spliced src p old new) + length old ≡ length src + length new =
        length-replace src p (length old) new hi in
      let product = mul.suc k (length new) in
      let (r, q) =
        loop_total fuel k old new (next p old new) (spliced src p old new) (omega arith)
          (omega arith) (omega arith) in
      (r, loop_some fuel old new i src p e ∙ q)
]

-- `replaceAll` ends, whatever the three texts, without an exception or an access out of range, as
-- long as the text with one replacement more than it has bytes is shorter than a `size_t` counts.
pub replace_all_total :
    (src old new : Bytes)
    → length src + suc (length src) * length new < size_max
    → (r : Bytes) × (replace_all src old new ≡ some r)
unfolding replace_all
replace_all_total src old new fits =
    loop_total (length src + 2) (suc (length src)) old new 0 src (omega arith) fits (omega arith)

-- Let `l` be what stands in front of the first match, and the text shorter than a `size_t` counts.
-- Where `l`, the replacement and one byte together are shorter than the search text, the next
-- position falls below 0 and wraps: only the first match is replaced.
pub replace_all-first :
    (l old new r : Bytes)
    → find (l ++ (old ++ r)) old 0 ≡ some (length l)
    → length l + length new + 1 < length old
    → length (l ++ (old ++ r)) < size_max
    → replace_all (l ++ (old ++ r)) old new ≡ some (l ++ (new ++ r))
unfolding replace_all
replace_all-first l old new r at shorter fits =
    let src = l ++ (old ++ r) in
    let fuel : length src + 2 ≡ suc (suc (length src)) = omega arith in
    let len = length-append l (old ++ r) in
    let len' = length-append l (new ++ r) in
    let rest = length-append old r in
    let rest' = length-append new r in
    let spliced_at : spliced src (length l) old new ≡ l ++ (new ++ r) =
      ap₂ (λ xs ys. xs ++ (new ++ ys)) (take_before l old r) (drop_behind l old r) in
    let behind = find_behind (l ++ (new ++ r)) old (next (length l) old new) (omega arith) in
    rw (fuel, loop_some (suc (length src)) old new 0 src (length l) at, spliced_at)
      (loop_none (length src) old new (next (length l) old new) (l ++ (new ++ r)) behind)
