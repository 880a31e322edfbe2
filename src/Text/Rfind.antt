-- ===== src/Text/Rfind.antt =====
-- What `rfind` finds: the last place where a text matches.
use vcpkg_test.Prelude.{
  ℕ, suc, ◌≤◌, ◌≡◌, refl, ap, true, none, some, [], ◌∷◌, ◌++◌, Bytes, if◌then◌else◌, length,
  Bool-cases, Option-cases, inl, inr, ==→eq, ◌==◌, arith,
}
use vcpkg_test.Text.{starts_with, starts_with-append, rfind}

starts_with-split : (old s : Bytes) → starts_with old s ≡ true → (r : Bytes) × (s ≡ old ++ r)
starts_with-split [] s e = (s, refl)
starts_with-split (c ∷ cs) [] e = absurd (cc)
starts_with-split (c ∷ cs) (x ∷ xs) e = elim (Bool-cases (c == x)) [
  | inl same ↦ let (r, f) = starts_with-split cs xs (rw same at e) in (r, cc (==→eq c x same, f))
  | inr other ↦ absurd (cc (rw other at e))
]

-- A match at the begin, at position 0.
split_lem :
    (s old : Bytes) (p : ℕ)
    → (if starts_with old s then some 0 else none) ≡ some p
    → (l r : Bytes) × (s ≡ l ++ (old ++ r)) × (length l ≡ p)
split_lem s old p e = elim (Bool-cases (starts_with old s)) [
  | inl f ↦
      let zero : some 0 ≡ some p = rw f at e in
      let (r, g) = starts_with-split old s f in ([], r, g, cc zero)
  | inr f ↦ absurd (cc (rw f at e))
]

-- A place that `rfind` finds is a match.
pub rfind-match :
    (s old : Bytes) (p : ℕ)
    → rfind s old ≡ some p
    → (l r : Bytes) × (s ≡ l ++ (old ++ r)) × (length l ≡ p)
unfolding rfind
rfind-match [] old p e = split_lem [] old p e
rfind-match (x ∷ xs) old p e = elim (Option-cases (rfind xs old)) [
  | inl f ↦ split_lem (x ∷ xs) old p (rw f at e)
  | inr (q, f) ↦
      let later : some (suc q) ≡ some p = rw f at e in
      let (l, r, g, h) = rfind-match xs old q f in (x ∷ l, r, ap (◌∷◌ x) g, cc (later, h))
]

rfind-starts_with : (s old : Bytes) → starts_with old s ≡ true → (p : ℕ) × (rfind s old ≡ some p)
unfolding rfind
rfind-starts_with [] old e = (0, rw e refl)
rfind-starts_with (x ∷ xs) old e = elim (Option-cases (rfind xs old)) [
  | inl f ↦ (0, rw (f, e) refl)
  | inr (p, f) ↦ (suc p, rw f refl)
]

-- A match is found, or a later one.
pub rfind-latest :
    (l old r : Bytes) → (p : ℕ) × (rfind (l ++ (old ++ r)) old ≡ some p) × (length l ≤ p)
unfolding rfind
rfind-latest [] old r =
    let (p, e) = rfind-starts_with (old ++ r) old (starts_with-append old r) in (p, e, omega arith)
rfind-latest (x ∷ l) old r =
    let (p, e, le) = rfind-latest l old r in (suc p, rw e refl, omega arith)
