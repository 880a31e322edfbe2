-- ===== src/Window/Track.antt =====
-- What the order and the recorded positions say about the input read so far.
use vcpkg_test.Prelude.{
  ℕ, suc, ◌<◌, ◌≡◌, ◌≢◌, sym, true, false, List, [], ◌∷◌, ◌++◌, arith, ◌==◌, mem, Distinct, some,
  Bool-cases, inl, inr, mem_self, mem_cons, Bytes, get_elem?, ==→eq, mem-append, subst,
  ==_of_mem_right,
}
use vcpkg_test.Window.Order.{erase, touch, mem-touch, mem-of-erase, not-mem-erase}
use vcpkg_test.Window.Pigeonhole.{Within}

-- `p` is the last position before `cur` at which `input` has `c`.
pub record LastSeen (input : Bytes) (cur c p : ℕ) : Type 0 where
  pub before : p < cur
  pub there : get_elem? input p ≡ some c
  pub none_after : (k : ℕ) → p < k → k < cur → get_elem? input k ≢ some c

-- Every character of `xs` was seen earlier than those behind it.
abbrev OldestFirst : (ℕ → ℕ) → List ℕ → Type 0
OldestFirst pos [] = Unit
OldestFirst pos (x ∷ xs) = ((y : ℕ) → mem y xs ≡ true → pos x < pos y) × OldestFirst pos xs

pub record Tracks (pattern input : Bytes) (cur : ℕ) (pos : ℕ → ℕ) (order : List ℕ) : Type 0 where
  pub within : Within order pattern
  pub seen : (c : ℕ) → mem c order ≡ true → LastSeen input cur c (pos c)
  pub unseen :
      (c : ℕ)
      → mem c order ≡ false
      → mem c pattern ≡ true
      → (k : ℕ) → k < cur
      → get_elem? input k ≢ some c
  pub oldest_first : OldestFirst pos order

OldestFirst-erase :
    (pos : ℕ → ℕ) (c : ℕ) (xs : List ℕ) → OldestFirst pos xs → OldestFirst pos (erase c xs)
unfolding erase
OldestFirst-erase pos c [] o = o
OldestFirst-erase pos c (x ∷ xs) (o, os) = elim (Bool-cases (c == x)) [
  | inl e ↦ rw e os
  | inr e ↦ rw e (λ y m. o y (mem-of-erase y c xs m), OldestFirst-erase pos c xs os)
]

OldestFirst-same :
    (pos pos' : ℕ → ℕ) (xs : List ℕ)
    → ((a : ℕ) → mem a xs ≡ true → pos' a ≡ pos a)
    → OldestFirst pos xs
    → OldestFirst pos' xs
OldestFirst-same pos pos' [] same o = o
OldestFirst-same pos pos' (x ∷ xs) same (o, os) = (
  λ y m. omega (arith, same x (mem_self x xs), same y (mem_cons y x xs m), o y m),
  OldestFirst-same pos pos' xs (λ a m. same a (mem_cons a x xs m)) os,
)

OldestFirst-snoc :
    (pos : ℕ → ℕ) (c : ℕ) (xs : List ℕ)
    → ((a : ℕ) → mem a xs ≡ true → pos a < pos c)
    → OldestFirst pos xs
    → OldestFirst pos (xs ++ c ∷ [])
OldestFirst-snoc pos c [] older o = (λ y m. cc, tt)
OldestFirst-snoc pos c (x ∷ xs) older (o, os) = (
  λ y m. ground (arith, mem-append y xs (c ∷ []), o y, older x),
  OldestFirst-snoc pos c xs (λ a m. older a (mem_cons a x xs m)) os,
)

module _ (input : Bytes) (cur c : ℕ) (at : get_elem? input cur ≡ some c) where
  -- The character at `cur` is `c`, and no other.
  unseen_step :
      (a lo : ℕ)
      → (a == c) ≡ false
      → ((k : ℕ) → lo < k → k < cur → get_elem? input k ≢ some a)
      → (k : ℕ) → lo < k
      → k < suc cur
      → get_elem? input k ≢ some a
  unseen_step a lo e none k h h' = ground (arith, none k)

  LastSeen-step :
      (a p : ℕ) → (a == c) ≡ false → LastSeen input cur a p → LastSeen input (suc cur) a p
  LastSeen-step a p e s = record {
    before = omega arith;
    there = s.there;
    none_after = unseen_step a p e s.none_after;
  }

module _ (pattern input : Bytes) (cur : ℕ) (pos : ℕ → ℕ) (order : List ℕ)
    (t : Tracks pattern input cur pos order) (c : ℕ) (at : get_elem? input cur ≡ some c) where
  -- A character outside the pattern.
  pub Tracks-miss : mem c pattern ≡ false → Tracks pattern input (suc cur) pos order
  Tracks-miss out = record {
    within = t.within;
    seen = λ a m.
        LastSeen-step input cur c at a (pos a) (==_of_mem_right a c pattern (t.within a m) out)
          (t.seen a m);
    unseen = λ a o m k h. ground (arith, t.unseen a o m k, at, ==_of_mem_right a c pattern m out);
    oldest_first = t.oldest_first;
  }

  -- A character of the pattern becomes the youngest.
  pub Tracks-hit :
      (pos' : ℕ → ℕ)
      → Distinct order
      → mem c pattern ≡ true
      → pos' c ≡ cur
      → ((a : ℕ) → (a == c) ≡ false → pos' a ≡ pos a)
      → Tracks pattern input (suc cur) pos' (touch c order)
  Tracks-hit pos' d m e same = record {
    within = λ a i. elim (Bool-cases (a == c)) [
      | inl q ↦ subst (λ b. mem b pattern ≡ true) (sym (==→eq a c q)) m
      | inr q ↦ t.within a (old a i q)
    ];
    seen = λ a i. elim (Bool-cases (a == c)) [
      | inl q ↦ subst (λ b. LastSeen input (suc cur) b (pos' b)) (sym (==→eq a c q)) (rw e now)
      | inr q ↦ rw (same a q) (LastSeen-step input cur c at a (pos a) q (t.seen a (old a i q)))
    ];
    unseen = λ a o i k h. ground (arith, mem-touch a c order, t.unseen a (new a o) i k, at);
    oldest_first =
        unfold touch in
        OldestFirst-snoc pos' c (erase c order)
          (λ a i. omega (arith, e, kept a i, (t.seen a (mem-of-erase a c order i)).before))
          (OldestFirst-same pos pos' (erase c order) kept
            (OldestFirst-erase pos c order t.oldest_first));
  }
    where
      old : (a : ℕ) → mem a (touch c order) ≡ true → (a == c) ≡ false → mem a order ≡ true
      old a i q = ground (arith, mem-touch a c order)

      new : (a : ℕ) → mem a (touch c order) ≡ false → mem a order ≡ false
      new a o = ground (arith, mem-touch a c order)

      kept : (a : ℕ) → mem a (erase c order) ≡ true → pos' a ≡ pos a
      kept a i = same a (==_of_mem_right a c (erase c order) i (not-mem-erase c order d))

      now : LastSeen input (suc cur) c cur
      now = record { before = omega arith; there = at; none_after = λ k h h'. absurd (omega arith) }
