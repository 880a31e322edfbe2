-- ===== src/Window/Best.antt =====
-- The best window of the input read so far, by the positions of its ends.
use vcpkg_test.Prelude.{
  ℕ, suc, ◌+◌, ◌-◌, ◌≤◌, ◌<◌, ◌≡◌, ◌≢◌, sym, true, false, List, ◌∷◌, arith, ◌==◌, ltb,
  if◌then◌else◌, mem, some, Bool-cases, inl, inr, mem_self, Bytes, get_elem?, ==_of_mem_right,
  ltb→lt, ltb→le, ==→eq, subst,
}
use vcpkg_test.Window.{marker}
use vcpkg_test.Window.Pigeonhole.{Within}
use vcpkg_test.Window.Track.{Tracks, LastSeen}

-- Every character of the pattern stands in `input` between `i` and `j`, both included.
abbrev pub CoversAt : Bytes → Bytes → ℕ → ℕ → Type 0
CoversAt pattern input i j =
    (c : ℕ) → mem c pattern ≡ true → (k : ℕ) × (i ≤ k) × (k ≤ j) × (get_elem? input k ≡ some c)

-- `d` is one less than the length of a shortest window so far, and `b` its last position.
pub record Best (pattern input : Bytes) (cur d b : ℕ) : Type 0 where
  pub found : d ≢ marker → (b < cur) × (d ≤ b) × CoversAt pattern input (b - d) b
  pub least : (i j : ℕ) → j < cur → CoversAt pattern input i j → d + i ≤ j

module _ (pattern input : Bytes) (cur d b : ℕ) (best : Best pattern input cur d b) where
  later : d ≢ marker → (b < suc cur) × (d ≤ b) × CoversAt pattern input (b - d) b
  later n = let (x, y, z) = best.found n in (omega arith, y, z)

  step :
      (d' : ℕ)
      → d' ≤ d
      → ((i : ℕ) → CoversAt pattern input i cur → d' + i ≤ cur)
      → (i j : ℕ) → j < suc cur
      → CoversAt pattern input i j
      → d' + i ≤ j
  step d' le ends i j h cov = elim (Bool-cases (ltb j cur)) [
    | inl e ↦ omega (arith, best.least i j (ltb→lt j cur e) cov)
    | inr e ↦
        let at : j ≡ cur = omega (arith, ltb→le j cur e) in
        subst (λ k. d' + i ≤ k) (sym at) (ends i (subst (CoversAt pattern input i) at cov))
  ]

  -- No window ends at a character outside the pattern that none before it matches.
  pub Best-miss :
      (c p : ℕ)
      → get_elem? input cur ≡ some c
      → mem c pattern ≡ false
      → mem p pattern ≡ true
      → Best pattern input (suc cur) d b
  Best-miss c p at out some_p = record { found = later; least = step d (omega arith) ends }
    where
      earlier : (a k : ℕ) → mem a pattern ≡ true → k ≤ cur → get_elem? input k ≡ some a → k < cur
      earlier a k m h e = ground (arith, at, ==_of_mem_right a c pattern m out)

      ends : (i : ℕ) → CoversAt pattern input i cur → d + i ≤ cur
      ends i cov =
          let (k, lo, hi, e) = cov p some_p in
          let before = earlier p k some_p hi e in
          let fits = best.least i (cur - 1) (omega arith) λ a m.
            let (k', lo', hi', e') = cov a m in
            (k', lo', omega (arith, earlier a k' m hi' e'), e') in
          omega arith

  -- Nor at one that leaves a character of the pattern unseen.
  pub Best-short :
      (c : ℕ)
      → mem c pattern ≡ true
      → ((k : ℕ) → k < suc cur → get_elem? input k ≢ some c)
      → Best pattern input (suc cur) d b
  Best-short c m unseen = record {
    found = later;
    least =
        step d (omega arith)
          λ i cov. let (k, lo, hi, e) = cov c m in absurd (unseen k (omega arith) e);
  }

  -- Where all of the pattern was seen, the oldest position starts the shortest window that ends
  -- here.
  pub Best-full :
      (pos : ℕ → ℕ) (f : ℕ) (rest : List ℕ)
      → Tracks pattern input (suc cur) pos (f ∷ rest)
      → Within pattern (f ∷ rest)
      → Best pattern input
          (suc cur)
          (if ltb (cur - pos f) d then cur - pos f else d)
          (if ltb (cur - pos f) d then cur else b)
  Best-full pos f rest t all = elim (Bool-cases (ltb (cur - pos f) d)) [
    | inl e ↦ rw e (record {
      found = λ n. (omega arith, omega arith, covers);
      least = step (cur - pos f) (omega (arith, ltb→lt (cur - pos f) d e)) ends;
    })
    | inr e ↦ rw e (record {
      found = later;
      least = step d (omega arith) λ i cov. omega (arith, ltb→le (cur - pos f) d e, ends i cov);
    })
  ]
    where
      f_seen : LastSeen input (suc cur) f (pos f)
      f_seen = t.seen f (mem_self f rest)

      oldest : (a : ℕ) → mem a pattern ≡ true → pos f ≤ pos a
      oldest a m = elim (Bool-cases (a == f)) [
        | inl e ↦ rw (==→eq a f e) (omega arith)
        | inr e ↦
            let m' : mem a rest ≡ true = ground (arith, all a m) in
            omega (arith, t.oldest_first.0 a m')
      ]

      starts : (i : ℕ) → CoversAt pattern input i cur → i ≤ pos f
      starts i cov =
          let (k, lo, hi, e) = cov f (t.within f (mem_self f rest)) in
          elim (Bool-cases (ltb (pos f) k)) [
            | inl l ↦ absurd (f_seen.none_after k (ltb→lt (pos f) k l) (omega arith) e)
            | inr l ↦ omega (arith, ltb→le (pos f) k l)
          ]

      ends : (i : ℕ) → CoversAt pattern input i cur → (cur - pos f) + i ≤ cur
      ends i cov = omega (arith, starts i cov, f_seen.before)

      covers : CoversAt pattern input (cur - (cur - pos f)) cur
      covers a m =
          let s = t.seen a (all a m) in
          (pos a, omega (arith, oldest a m, f_seen.before), omega (arith, s.before), s.there)
