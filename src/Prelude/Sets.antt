-- ===== src/Prelude/Sets.antt =====
-- Lists of numbers read as sets: membership as a Boolean, predicates by recursion.
use Prim.Native.Nat.{ℕ}
use mathlib.Core.Path.{◌≡◌, refl}
use mathlib.Core.Bool.{Bool, true, false, ◌||◌}
use mathlib.Core.List.{List, [], ◌∷◌, ◌++◌}
use native.Mathlib.Omega.{arith}
use mathlib.Core.Logic.{inl, inr}
use vcpkg_test.Prelude.Tests.{◌==◌, Bool-cases}

module _ {ℓ κ} {A : Type ℓ} (P : A → Type κ) where
  abbrev pub All : List A → Type κ
  All [] = Unit
  All (x ∷ xs) = P x × All xs

  All-append : (xs ys : List A) → All xs → All ys → All (xs ++ ys)
  All-append [] ys hx hy = hy
  All-append (x ∷ xs) ys (px, hx) hy = (px, All-append xs ys hx hy)

  pub All-remove : (xs : List A) (t : A) (ys : List A) → All (xs ++ t ∷ ys) → All (xs ++ ys)
  All-remove [] t ys (pt, hy) = hy
  All-remove (x ∷ xs) t ys (px, h) = (px, All-remove xs t ys h)

abbrev pub mem : ℕ → List ℕ → Bool
mem a [] = false
mem a (x ∷ xs) = (a == x) || mem a xs

-- No element occurs twice.
abbrev pub Distinct : List ℕ → Type 0
Distinct [] = Unit
Distinct (x ∷ xs) = (mem x xs ≡ false) × Distinct xs

pub mem-append : (a : ℕ) (xs ys : List ℕ) → mem a (xs ++ ys) ≡ (mem a xs || mem a ys)
mem-append a [] ys = refl
mem-append a (x ∷ xs) ys = ground (arith, mem-append a xs ys)

-- What is in a list differs from what is not.
pub ==_of_mem : (a b : ℕ) (xs : List ℕ) → mem a xs ≡ false → mem b xs ≡ true → (a == b) ≡ false
==_of_mem a b [] h k = cc
==_of_mem a b (x ∷ xs) h k = ground (arith, ==_of_mem a b xs)

pub Distinct-split :
    (xs ys : List ℕ)
    → Distinct (xs ++ ys)
    → Distinct xs × Distinct ys × ((a : ℕ) → mem a xs ≡ true → mem a ys ≡ false)
Distinct-split [] ys d = (tt, d, λ a m. cc)
Distinct-split (x ∷ xs) ys (out, d) =
    let (dx, dy, apart) = Distinct-split xs ys d in
    (
      (ground (arith, mem-append x xs ys), dx),
      dy,
      λ a m. ground (arith, mem-append x xs ys, apart a),
    )

pub Distinct-remove :
    (xs : List ℕ) (t : ℕ) (ys : List ℕ)
    → Distinct (xs ++ t ∷ ys)
    → Distinct (xs ++ ys) × (mem t (xs ++ ys) ≡ false)
Distinct-remove [] t ys (out, d) = (d, out)
Distinct-remove (x ∷ xs) t ys (out, d) =
    let (d', out') = Distinct-remove xs t ys d in
    (
      (ground (arith, mem-append x xs ys, mem-append x xs (t ∷ ys)), d'),
      ground (arith, out', mem-append x xs (t ∷ ys)),
    )

pub Distinct-snoc : (xs : List ℕ) (t : ℕ) → Distinct xs → mem t xs ≡ false → Distinct (xs ++ t ∷ [])
Distinct-snoc [] t d out = (refl, tt)
Distinct-snoc (x ∷ xs) t (out', d) out =
    (ground (arith, mem-append x xs (t ∷ [])), Distinct-snoc xs t d (ground arith))

pub ==_of_mem_right :
    (a b : ℕ) (xs : List ℕ) → mem a xs ≡ true → mem b xs ≡ false → (a == b) ≡ false
==_of_mem_right a b [] h k = cc
==_of_mem_right a b (x ∷ xs) h k = ground (arith, ==_of_mem_right a b xs)

pub mem_self : (a : ℕ) (xs : List ℕ) → mem a (a ∷ xs) ≡ true
mem_self a xs = ground arith

pub mem_cons : (a x : ℕ) (xs : List ℕ) → mem a xs ≡ true → mem a (x ∷ xs) ≡ true
mem_cons a x xs h = ground arith

pub not-mem-tail : (a x : ℕ) (xs : List ℕ) → mem a (x ∷ xs) ≡ false → mem a xs ≡ false
not-mem-tail a x xs h = ground arith

pub mem_left : (a : ℕ) (xs ys : List ℕ) → mem a xs ≡ true → mem a (xs ++ ys) ≡ true
mem_left a xs ys h = ground (arith, mem-append a xs ys)

pub mem_right : (a : ℕ) (xs ys : List ℕ) → mem a ys ≡ true → mem a (xs ++ ys) ≡ true
mem_right a xs ys h = ground (arith, mem-append a xs ys)

-- Disjointness goes both ways.
pub apart_sym :
    (xs ys : List ℕ)
    → ((a : ℕ) → mem a xs ≡ true → mem a ys ≡ false)
    → (b : ℕ) → mem b ys ≡ true
    → mem b xs ≡ false
apart_sym xs ys apart b h = elim (Bool-cases (mem b xs)) [
  | inl e ↦ absurd (cc (apart b e))
  | inr e ↦ e
]

pub not-mem-remove :
    (a : ℕ) (xs : List ℕ) (t : ℕ) (ys : List ℕ)
    → mem a (xs ++ t ∷ ys) ≡ false
    → mem a (xs ++ ys) ≡ false
not-mem-remove a [] t ys h = not-mem-tail a t ys h
not-mem-remove a (x ∷ xs) t ys h = ground (arith, not-mem-remove a xs t ys)

pub not-mem-keep :
    (a x : ℕ) (xs ys : List ℕ) → mem a (x ∷ xs) ≡ false → mem a ys ≡ false → mem a (x ∷ ys) ≡ false
not-mem-keep a x xs ys h k = ground arith

pub not-mem-head : (a x : ℕ) (xs : List ℕ) → mem a (x ∷ xs) ≡ false → (a == x) ≡ false
not-mem-head a x xs h = ground arith
