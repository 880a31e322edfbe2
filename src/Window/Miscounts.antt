-- ===== src/Window/Miscounts.antt =====
-- The `size` of `min_win` of src/min_char_window.cpp against its list, where the first two
-- characters out of the pattern are the same.
use vcpkg_test.Prelude.{
  ℕ, suc, ◌≤◌, ◌≡◌, ◌⊎◌, sym, ap, subst, refl, Bool, List, [], ◌∷◌, ◌++◌, true, false, arith, mem,
  Bool-cases, inl, inr, Bytes, length, mem_self,
}
use native.Mathlib.Decide.{}
use vcpkg_test.Window.{}
use vcpkg_test.Window.Cells.{}
use vcpkg_test.Window.Order.{touch, length-touch-ge, length-touch_old, touch_lem}
use vcpkg_test.Window.Pigeonhole.{}
use vcpkg_test.Window.Round.{Counts}
use vcpkg_test.Window.Scan.{}
use vcpkg_test.Window.Start.{}
use vcpkg_test.Window.Spec.{hits, FirstTwoDiffer}
use vcpkg_test.Window.Total.{}
use vcpkg_test.Window.Moves.{}
use vcpkg_test.Window.Visit.{}

-- The list counts right and the next hit will be the one it has, or it counts one too many.
abbrev pub Miscounts : Bytes → Bool → List ℕ → ℕ → Bytes → Type 0
Miscounts pattern looped order size cs =
    ((looped ≡ false)
      × (size ≡ length order)
      × (length order ≤ 1)
      × ¬ FirstTwoDiffer (order ++ hits pattern cs))
    ⊎ ((size ≡ suc (length order)) × (looped ≡ false → 2 ≤ length order))

pub Miscounts-miss :
    (pattern : Bytes) (looped : Bool) (order : List ℕ) (size c : ℕ) (cs : Bytes)
    → mem c pattern ≡ false
    → Miscounts pattern looped order size (c ∷ cs)
    → Miscounts pattern looped order size cs
Miscounts-miss pattern looped order size c cs out (inl (l, s, le, same)) =
    inl (l, s, le, (rw out at same))
Miscounts-miss pattern looped order size c cs out (inr off) = inr off

-- Behind a hit.
pub Miscounts-hit :
    (pattern : Bytes) (looped loops : Bool) (order : List ℕ) (size count c : ℕ) (cs : Bytes)
    → mem c pattern ≡ true
    → Counts looped loops c order size count
    → (looped ≡ true → loops ≡ false → 2 ≤ length order)
    → Miscounts pattern looped order size (c ∷ cs)
    → Miscounts pattern loops (touch c order) count cs
Miscounts-hit pattern looped loops order size count c cs m (inl (more, same, e)) unlooped
      (inr (s, long)) =
    inr (
      omega (arith),
      λ f.
          length-touch-ge c order
            (elim (Bool-cases looped) [ inl l ↦ unlooped l f | inr l ↦ long l ]),
    )
Miscounts-hit pattern looped loops order size count c cs m (inr (e, l, _, f)) unlooped
      (inr (s, long)) =
    absurd (omega (arith, ap length e, long l))
Miscounts-hit pattern looped loops [] size count c cs m (inl (more, same, e)) unlooped
      (inl (l, s, le, alike)) =
    let t = touch_lem c [] refl in
    inl (same l, omega (arith, ap length t), omega (arith, ap length t), rw t (rw m at alike))
Miscounts-hit pattern looped loops [] size count c cs m (inr (e, _, _, _)) unlooped
      (inl (l, s, le, alike)) =
    absurd (cc e)
Miscounts-hit pattern looped loops (x ∷ y ∷ order) size count c cs m counts unlooped
      (inl (l, s, le, alike)) =
    absurd (omega arith)
Miscounts-hit pattern looped loops (x ∷ []) size count c cs m (inl (more, same, e)) unlooped
      (inl (l, s, le, alike)) =
    absurd ((rw m at alike) (λ q. more l (ap (λ z. z ∷ []) q)))
Miscounts-hit pattern looped loops (x ∷ []) size count c cs m (inr (e, _, lo, f)) unlooped
      (inl (l, s, le, alike)) =
    inr (
      omega (
        arith,
        length-touch_old c (x ∷ []) (subst (λ o. mem c o ≡ true) (sym e) (mem_self c [])),
      ),
      λ g. absurd (cc (lo, g)),
    )
