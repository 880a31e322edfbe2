-- ===== src/Window/Spec.antt =====
-- What `min_win` promises: a shortest part of the input that has every character of the pattern.
use vcpkg_test.Prelude.{
  ℕ, zero, suc, ◌+◌, ◌≤◌, ◌<◌, ◌≡◌, ◌≢◌, sym, ap, some, List, [], ◌∷◌, true, arith, ◌==◌,
  if◌then◌else◌, mem, Bool-cases, inl, inr, mem_cons, Bytes, get_elem?, length, take, drop, ==→eq,
}

abbrev pub IsAscii : ℕ → Type 0
IsAscii c = c < 128

-- Every character of the pattern occurs in the window.
abbrev pub Covers : Bytes → Bytes → Type 0
Covers pattern window = (c : ℕ) → mem c pattern ≡ true → mem c window ≡ true

-- The part of the input that starts at `i` and has `n` characters, fewer at the end of the input.
abbrev pub window : Bytes → ℕ → ℕ → Bytes
window input i n = take n (drop i input)

-- `r` is a part of the input, covers the pattern, and no shorter part does.
pub record IsShortest (pattern input r : Bytes) : Type 0 where
  pub at : ℕ
  pub inside : at + length r ≤ length input
  pub is_window : r ≡ window input at (length r)
  pub covers : Covers pattern r
  pub least : (i n : ℕ) → Covers pattern (window input i n) → length r ≤ n

-- No part of the input covers the pattern, and the answer is the empty string.
pub record IsAbsent (pattern input r : Bytes) : Type 0 where
  pub empty : r ≡ []
  pub no_window : (i n : ℕ) → ¬ Covers pattern (window input i n)

-- The characters of the pattern in the order in which the input has them.
abbrev pub hits : Bytes → Bytes → Bytes
hits pattern [] = []
hits pattern (c ∷ cs) = if mem c pattern then c ∷ hits pattern cs else hits pattern cs

abbrev pub FirstTwoDiffer : List ℕ → Type 0
FirstTwoDiffer [] = Unit
FirstTwoDiffer (a ∷ []) = Unit
FirstTwoDiffer (a ∷ b ∷ cs) = a ≢ b

pub window_get :
    (c : ℕ) (xs : Bytes) (i n : ℕ)
    → mem c (window xs i n) ≡ true
    → (k : ℕ) × (i ≤ k) × (k < i + n) × (k < length xs) × (get_elem? xs k ≡ some c)
window_get c [] zero zero h = absurd (cc)
window_get c [] zero (suc n) h = absurd (cc)
window_get c [] (suc i) zero h = absurd (cc)
window_get c [] (suc i) (suc n) h = absurd (cc)
window_get c (x ∷ xs) zero zero h = absurd (cc)
window_get c (x ∷ xs) zero (suc n) h = elim (Bool-cases (c == x)) [
  | inl e ↦ (0, omega arith, omega arith, omega arith, ap some (sym (==→eq c x e)))
  | inr e ↦
      let (k, lo, hi, len, q) = window_get c xs zero n (rw e at h) in
      (suc k, omega arith, omega arith, omega arith, q)
]
window_get c (x ∷ xs) (suc i) n h =
    let (k, lo, hi, len, q) = window_get c xs i n h in
    (suc k, omega arith, omega arith, omega arith, q)

pub get_window :
    (c : ℕ) (xs : Bytes) (i n k : ℕ)
    → i ≤ k
    → k < i + n
    → get_elem? xs k ≡ some c
    → mem c (window xs i n) ≡ true
get_window c [] i n k lo hi e = cc
get_window c (x ∷ xs) zero zero k lo hi e = absurd (omega arith)
get_window c (x ∷ xs) zero (suc n) zero lo hi e = ground arith
get_window c (x ∷ xs) zero (suc n) (suc k) lo hi e =
    mem_cons c x (take n xs) (get_window c xs zero n k (omega arith) (omega arith) e)
get_window c (x ∷ xs) (suc i) n zero lo hi e = absurd (omega arith)
get_window c (x ∷ xs) (suc i) n (suc k) lo hi e =
    get_window c xs i n k (omega arith) (omega arith) e

pub drop_cons :
    (n c : ℕ) (xs cs : Bytes)
    → drop n xs ≡ c ∷ cs
    → (get_elem? xs n ≡ some c) × (drop (suc n) xs ≡ cs)
drop_cons zero c [] cs h = cc
drop_cons (suc n) c [] cs h = cc
drop_cons zero c (x ∷ xs) cs h = ground arith
drop_cons (suc n) c (x ∷ xs) cs h = drop_cons n c xs cs h
