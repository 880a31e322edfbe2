-- ===== src/Window/Tests.antt =====
-- `min_win` on concrete texts, the two of the source's `main` among them.
use vcpkg_test.Prelude.{ℕ, ◌≡◌, ◌⊎◌, refl, Option, none, some, [], ◌∷◌, inr, arith, Bytes, codes}
use vcpkg_test.Window.{
  min_win, init_chars, scan, result, visit, get_a, update, insert_new, move_old, measure, front,
  pop, emplace_back, substr,
}
use vcpkg_test.Window.Shortest.{min_win_lem}
use vcpkg_test.Window.Doubled.{min_win_doubled}
use vcpkg_test.Window.Repeated.{min_win_repeated}
use vcpkg_test.Window.NonAscii.{min_win-HasNonAscii}
use vcpkg_test.Window.Spec.{IsShortest, IsAbsent, Covers, window}
use vcpkg_test.Window.Total.{IsPart, min_win_total}
use vcpkg_test.Window.Miscounted.{min_win_miscounted}

ran : Bytes → Bytes → Option Bytes
unfolding min_win init_chars scan result visit get_a update insert_new move_old measure front pop
    emplace_back substr
ran = min_win

shortest_at_end : ran (codes "ADOBECODEBANC") (codes "ABC") ≡ some (codes "BANC")
unfolding ran
shortest_at_end = refl

doubled_first : ran (codes "AABC") (codes "ABC") ≡ some (codes "AB")
unfolding ran
doubled_first = refl

doubled_pattern : ran (codes "ADOBECODEBANC") (codes "AA") ≡ some (codes "A")
unfolding ran
doubled_pattern = refl

abbrev text : Bytes
text = codes "ADOBECODEBANC"

abbrev wanted : Bytes
wanted = codes "ABC"

min_win_lem_example :
    (r : Bytes) × (min_win text wanted ≡ some r)
    × (IsShortest wanted text r ⊎ IsAbsent wanted text r)
min_win_lem_example =
    min_win_lem text wanted (cc) (ground arith) (omega arith) (omega arith) (omega arith)
      (inr (omega arith))

min_win_total_example :
    (r : Bytes) × (min_win (codes "AABC") (codes "ABA") ≡ some r) × IsPart (codes "AABC") r
min_win_total_example =
    min_win_total (codes "AABC") (codes "ABA") (omega arith) (omega arith) (omega arith)

min_win_miscounted_example :
    (r : Bytes) × (min_win (codes "AABC") wanted ≡ some r) × ¬ Covers wanted r
min_win_miscounted_example =
    min_win_miscounted (codes "AABC") wanted (omega arith) (ground arith) (omega arith)
      (omega arith) (omega arith) (λ differ. differ refl)

min_win_doubled_example :
    (min_win (codes "AAxA") (codes "AB") ≡ some (codes "A"))
    × ¬ (
        IsShortest (codes "AB") (codes "AAxA") (codes "A")
        ⊎ IsAbsent (codes "AB") (codes "AAxA") (codes "A"))
min_win_doubled_example =
    min_win_doubled b'A' b'B' (codes "xA") refl (omega arith) (omega arith) (omega arith)
      (omega arith)

min_win_repeated_example :
    (min_win (codes "xAByA") (codes "ABA") ≡ some [])
    × ¬ (
        ((i : ℕ) × (n : ℕ) × Covers (codes "ABA") (window (codes "xAByA") i n))
        × (IsShortest (codes "ABA") (codes "xAByA") [] ⊎ IsAbsent (codes "ABA") (codes "xAByA") []))
min_win_repeated_example =
    min_win_repeated (codes "xAByA") (codes "ABA") (λ d. cc) (omega arith) (omega arith)
      (omega arith) (omega arith)

some_part-Covers : Covers (codes "ABA") (window (codes "xAByA") 0 5)
some_part-Covers = λ c m. ground arith

min_win-HasNonAscii_example : min_win (b'A' ∷ 195 ∷ 164 ∷ []) (codes "A") ≡ none
min_win-HasNonAscii_example =
    min_win-HasNonAscii (b'A' ∷ 195 ∷ 164 ∷ []) (codes "A") (inr (195, refl, omega arith))
