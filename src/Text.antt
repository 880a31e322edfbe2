-- ===== src/Text.antt =====
-- What the sources use of `std::string`: `find`, `rfind` and `replace`, over bytes.
pub mod Rfind
use native.Mathlib.Nat.{zero-add, suc-add}
use vcpkg_test.Prelude.{
  ℕ, suc, ◌+◌, ◌≤◌, ◌≡◌, refl, Bool, true, false, ◌&&◌, Option, none, some, [], ◌∷◌, ◌++◌, arith,
  ltb, ◌==◌, if◌then◌else◌, Bytes, length, take, drop, length-append, length-take, length-drop,
  take-length-append, drop-length-append, ltb→le, lt→ltb, ◌<◌, ==_refl, Bool-cases, inl, inr,
}

-- The text starts with `old`.
abbrev pub starts_with : Bytes → Bytes → Bool
starts_with [] s = true
starts_with (c ∷ cs) [] = false
starts_with (c ∷ cs) (x ∷ xs) = (c == x) && starts_with cs xs

-- The first match in a text whose first byte stands at position `i`.
unfoldable pub find_from : Bytes → Bytes → ℕ → Option ℕ
find_from old [] i = if starts_with old [] then some i else none
find_from old (x ∷ xs) i =
    let rest = find_from old xs (suc i) in if starts_with old (x ∷ xs) then some i else rest

-- `none` is `npos`.
unfoldable pub find : Bytes → Bytes → ℕ → Option ℕ
find s old i = if ltb (length s) i then none else find_from old (drop i s) i

-- The last match.
unfoldable pub rfind : Bytes → Bytes → Option ℕ
rfind [] old = if starts_with old [] then some 0 else none
rfind (x ∷ xs) old = elim (rfind xs old) [
  | some p ↦ some (suc p)
  | none ↦ if starts_with old (x ∷ xs) then some 0 else none
]

-- `s.replace(i, n, new)`, which throws if `i` lies behind the end.
unfoldable pub replace : Bytes → ℕ → ℕ → Bytes → Option Bytes
replace s i n new = if ltb (length s) i then none else some (take i s ++ (new ++ drop (i + n) s))

pub starts_with-append : (old s : Bytes) → starts_with old (old ++ s) ≡ true
starts_with-append [] s = refl
starts_with-append (c ∷ cs) s = rw (==_refl c, starts_with-append cs s)

starts_with-length : (old s : Bytes) → starts_with old s ≡ true → length old ≤ length s
starts_with-length [] s h = omega arith
starts_with-length (c ∷ cs) [] h = absurd (cc)
starts_with-length (c ∷ cs) (x ∷ xs) h = ground (arith, starts_with-length cs xs)

find_from_bounds :
    (old s : Bytes) (i p : ℕ)
    → find_from old s i ≡ some p
    → (i ≤ p) × (p + length old ≤ i + length s)
unfolding find_from
find_from_bounds old [] i p h = ground (arith, starts_with-length old [])
find_from_bounds old (x ∷ xs) i p h =
    ground (arith, starts_with-length old (x ∷ xs), find_from_bounds old xs (suc i) p)

pub find_bounds :
    (s old : Bytes) (i p : ℕ) → find s old i ≡ some p → (i ≤ p) × (p + length old ≤ length s)
unfolding find
find_bounds s old i p h = elim (Bool-cases (ltb (length s) i)) [
  | inl e ↦ absurd (cc (rw e at h))
  | inr e ↦ ground (
    arith,
    find_from_bounds old (drop i s) i p (rw e at h),
    length-drop i s,
    ltb→le (length s) i e,
  )
]

-- Behind the end there is no match.
pub find_behind : (s old : Bytes) (i : ℕ) → length s < i → find s old i ≡ none
unfolding find
find_behind s old i h = rw (lt→ltb (length s) i h)

pub replace_inside :
    (s : Bytes) (i n : ℕ) (new : Bytes)
    → i ≤ length s
    → replace s i n new ≡ some (take i s ++ (new ++ drop (i + n) s))
unfolding replace
replace_inside s i n new h = let e : ltb (length s) i ≡ false = ground arith in rw e

pub length-replace :
    (s : Bytes) (i n : ℕ) (new : Bytes)
    → i + n ≤ length s
    → length (take i s ++ (new ++ drop (i + n) s)) + n ≡ length s + length new
length-replace s i n new h = omega (
  arith,
  length-append (take i s) (new ++ drop (i + n) s),
  length-append new (drop (i + n) s),
  length-take i s,
  length-drop (i + n) s,
)

-- The text `l ++ m ++ r`, cut at `m`.
pub take_before : (l m r : Bytes) → take (length l) (l ++ (m ++ r)) ≡ l
take_before l m r = take-length-append l (m ++ r)

pub drop_behind : (l m r : Bytes) → drop (length l + length m) (l ++ (m ++ r)) ≡ r
drop_behind [] m r = rw zero-add (drop-length-append m r)
drop_behind (x ∷ l) m r = rw suc-add (drop_behind l m r)
