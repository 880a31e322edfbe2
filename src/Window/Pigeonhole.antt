-- ===== src/Window/Pigeonhole.antt =====
-- Counting: a list of distinct characters that lies in another is no longer than it.
use vcpkg_test.Prelude.{
  ℕ, suc, ◌≤◌, ◌≡◌, ◌≢◌, ◌⊎◌, ◌∙◌, sym, subst, ==→eq, true, false, List, [], ◌∷◌, arith, ◌==◌, mem,
  Distinct, length, length-append, ap, Bool-cases, inl, inr, mem_self, mem_cons, ==_of_mem_right,
}
use vcpkg_test.Window.Order.{erase, erase_split, mem-erase}

pub length-erase : (c : ℕ) (xs : List ℕ) → mem c xs ≡ true → suc (length (erase c xs)) ≡ length xs
length-erase c xs h =
    let (l, r, p, q) = erase_split c xs h in
    omega (arith, ap length p, ap length q, length-append l r, length-append l (c ∷ r))

abbrev pub Within : List ℕ → List ℕ → Type 0
Within xs ys = (a : ℕ) → mem a xs ≡ true → mem a ys ≡ true

Within-erase : (c : ℕ) (xs ys : List ℕ) → mem c xs ≡ false → Within xs ys → Within xs (erase c ys)
Within-erase c xs ys out sub a m = mem-erase a c ys (==_of_mem_right a c xs m out) ∙ sub a m

pub length-le-Within : (xs ys : List ℕ) → Distinct xs → Within xs ys → length xs ≤ length ys
length-le-Within [] ys d sub = omega arith
length-le-Within (x ∷ xs) ys (out, d) sub =
    let rest = Within-erase x xs ys out (λ a m. sub a (mem_cons a x xs m)) in
    omega
      (arith, length-erase x ys (sub x (mem_self x xs)), length-le-Within xs (erase x ys) d rest)

find_missing : (xs ys : List ℕ) → ((c : ℕ) × (mem c xs ≡ true) × (mem c ys ≡ false)) ⊎ Within xs ys
find_missing [] ys = inr (λ a m. cc)
find_missing (x ∷ xs) ys = elim (Bool-cases (mem x ys)) [
  | inr out ↦ inl (x, mem_self x xs, out)
  | inl here ↦ also here (find_missing xs ys)
]
  where
    Within-cons : mem x ys ≡ true → Within xs ys → Within (x ∷ xs) ys
    Within-cons here sub a m = elim (Bool-cases (a == x)) [
      | inl e ↦ subst (λ b. mem b ys ≡ true) (sym (==→eq a x e)) here
      | inr e ↦ sub a (rw e at m)
    ]

    also :
        mem x ys ≡ true
        → ((c : ℕ) × (mem c xs ≡ true) × (mem c ys ≡ false)) ⊎ Within xs ys
        → ((c : ℕ) × (mem c (x ∷ xs) ≡ true) × (mem c ys ≡ false)) ⊎ Within (x ∷ xs) ys
    also here (inl (c, m, out)) = inl (c, mem_cons c x xs m, out)
    also here (inr sub) = inr (Within-cons here sub)

module _ (order pattern : List ℕ) (d : Distinct order) (sub : Within order pattern) where
  -- As many as the pattern: nothing of the pattern is missing.
  pub all_of_length : length order ≡ length pattern → Within pattern order
  all_of_length e = elim (find_missing pattern order) [
    | inr all ↦ all
    | inl (c, m, out) ↦ absurd (
        omega (
          arith,
          length-erase c pattern m,
          length-le-Within order (erase c pattern) d (Within-erase c order pattern out sub),
        ))
  ]

  pub missing_of_length :
      Distinct pattern
      → length order ≢ length pattern
      → (c : ℕ) × (mem c pattern ≡ true) × (mem c order ≡ false)
  missing_of_length dp e = elim (find_missing pattern order) [
    | inl missing ↦ missing
    | inr all ↦
        absurd (
          omega
            (arith, length-le-Within order pattern d sub, length-le-Within pattern order dp all))
  ]
