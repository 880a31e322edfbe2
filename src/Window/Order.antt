-- ===== src/Window/Order.antt =====
-- The order that `min_win` keeps its cells in: the least recently seen character first.
use vcpkg_test.Prelude.{
  ℕ, suc, ◌≤◌, ◌≡◌, refl, sym, true, false, ◌||◌, List, [], ◌∷◌, ◌++◌, arith, ◌==◌, if◌then◌else◌,
  mem, mem-append, length, length-append, ap, ==→eq, ==_refl, Distinct, Bool-cases, inl, inr,
}

-- Without the first occurrence of `c`.
unfoldable pub erase : ℕ → List ℕ → List ℕ
erase c [] = []
erase c (x ∷ xs) = if c == x then xs else x ∷ erase c xs

-- `c` becomes the most recently seen character.
unfoldable pub touch : ℕ → List ℕ → List ℕ
touch c xs = erase c xs ++ c ∷ []

erase-not_mem : (c : ℕ) (xs : List ℕ) → mem c xs ≡ false → erase c xs ≡ xs
unfolding erase
erase-not_mem c [] h = refl
erase-not_mem c (x ∷ xs) h = ground (arith, erase-not_mem c xs)

pub erase_split :
    (c : ℕ) (xs : List ℕ)
    → mem c xs ≡ true
    → (l : List ℕ) × (r : List ℕ) × (xs ≡ l ++ c ∷ r) × (erase c xs ≡ l ++ r)
unfolding erase
erase_split c [] h = absurd (cc)
erase_split c (x ∷ xs) h = elim (Bool-cases (c == x)) [
  | inl e ↦ ([], xs, ap (λ y. y ∷ xs) (sym (==→eq c x e)), rw e)
  | inr e ↦
      let (l, r, p, q) = erase_split c xs (rw e at h) in
      (x ∷ l, r, ap (λ ys. x ∷ ys) p, rw e (ap (λ ys. x ∷ ys) q))
]

pub mem-erase : (a c : ℕ) (xs : List ℕ) → (a == c) ≡ false → mem a (erase c xs) ≡ mem a xs
unfolding erase
mem-erase a c [] h = refl
mem-erase a c (x ∷ xs) h = ground (arith, mem-erase a c xs)

pub mem-touch : (a c : ℕ) (xs : List ℕ) → mem a (touch c xs) ≡ ((a == c) || mem a xs)
unfolding touch
mem-touch a c xs = ground (arith, mem-erase a c xs, mem-append a (erase c xs) (c ∷ []))

pub length-touch_old : (c : ℕ) (xs : List ℕ) → mem c xs ≡ true → length (touch c xs) ≡ length xs
unfolding touch
length-touch_old c xs h =
    let (l, r, p, q) = erase_split c xs h in
    rw q (
      omega (
        arith,
        ap length p,
        length-append l r,
        length-append l (c ∷ r),
        length-append (l ++ r) (c ∷ []),
      ))

pub length-touch_new :
    (c : ℕ) (xs : List ℕ) → mem c xs ≡ false → length (touch c xs) ≡ suc (length xs)
unfolding touch
length-touch_new c xs h = rw (erase-not_mem c xs h) (omega (arith, length-append xs (c ∷ [])))

pub touch_lem : (c : ℕ) (xs : List ℕ) → mem c xs ≡ false → touch c xs ≡ xs ++ c ∷ []
unfolding touch
touch_lem c xs h = rw (erase-not_mem c xs h)

erase-append : (c : ℕ) (l r : List ℕ) → mem c (l ++ r) ≡ false → erase c (l ++ c ∷ r) ≡ l ++ r
unfolding erase
erase-append c [] r h = rw (==_refl c)
erase-append c (x ∷ l) r h = ground (arith, erase-append c l r)

pub touch_split :
    (c : ℕ) (l r : List ℕ) → mem c (l ++ r) ≡ false → touch c (l ++ c ∷ r) ≡ (l ++ r) ++ c ∷ []
unfolding touch
touch_split c l r h = rw (erase-append c l r h)

pub mem-of-erase : (a c : ℕ) (xs : List ℕ) → mem a (erase c xs) ≡ true → mem a xs ≡ true
unfolding erase
mem-of-erase a c [] h = h
mem-of-erase a c (x ∷ xs) h = ground (arith, mem-of-erase a c xs)

pub not-mem-erase : (c : ℕ) (xs : List ℕ) → Distinct xs → mem c (erase c xs) ≡ false
unfolding erase
not-mem-erase c [] d = refl
not-mem-erase c (x ∷ xs) (out, d) = elim (Bool-cases (c == x)) [
  | inl e ↦ rw (e, ==→eq c x e) out
  | inr e ↦ rw e (rw e (not-mem-erase c xs d))
]

pub length-touch-ge : (c : ℕ) (xs : List ℕ) → 2 ≤ length xs → 2 ≤ length (touch c xs)
length-touch-ge c xs h = elim (Bool-cases (mem c xs)) [
  | inl e ↦ omega (arith, length-touch_old c xs e)
  | inr e ↦ omega (arith, length-touch_new c xs e)
]

pub length-touch-le : (c : ℕ) (xs : List ℕ) → length (touch c xs) ≤ suc (length xs)
length-touch-le c xs = elim (Bool-cases (mem c xs)) [
  | inl e ↦ omega (arith, length-touch_old c xs e)
  | inr e ↦ omega (arith, length-touch_new c xs e)
]
