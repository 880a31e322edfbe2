-- ===== src/Generator/Substitute.antt =====
-- `replaceAll` of src/gz/Generator.cc where every next search starts inside or behind what was
-- inserted: against the replacement of matches from left to right.
use vcpkg_test.Prelude.{
  ℕ, zero, suc, ◌+◌, ◌-◌, ◌*◌, ◌≤◌, ◌<◌, ◌≡◌, refl, ap, ap₂, sym, ◌∙◌, true, false, ◌⊎◌, ltb, mem,
  Bool-cases, drop-length-append, append_assoc, none, some, [], ◌∷◌, ◌++◌, arith, Bytes,
  not-mem-head, not-mem-tail, length, take, drop, inl, inr, length-append, length-take, length-drop,
  size_max, if◌then◌else◌, ◌==◌, ==→eq,
}
use vcpkg_test.Text.{find, find_from, starts_with, take_before, drop_behind}
use vcpkg_test.Generator.{replace_loop, replace_all}
use vcpkg_test.Generator.ReplaceAll.{next, spliced, loop_none, loop_some}

-- The matches of a text that is not empty, from left to right and none inside of another, each
-- replaced; the first argument is the bytes of a match that are still to be left out.
module _ (c : ℕ) (cs new : Bytes) where
  abbrev pub substitute_from : ℕ → Bytes → Bytes
  substitute_from skip [] = []
  substitute_from (suc skip) (x ∷ xs) = substitute_from skip xs
  substitute_from zero (x ∷ xs) =
      if starts_with (c ∷ cs) (x ∷ xs)
      then new ++ substitute_from (length cs) xs
      else x ∷ substitute_from 0 xs

  substitute_from-append :
      (ys zs : Bytes) → substitute_from (length ys) (ys ++ zs) ≡ substitute_from 0 zs
  substitute_from-append [] zs = refl
  substitute_from-append (y ∷ ys) zs = substitute_from-append ys zs

starts_with-split : (old s : Bytes) → starts_with old s ≡ true → (r : Bytes) × (s ≡ old ++ r)
starts_with-split [] s h = (s, refl)
starts_with-split (c ∷ cs) [] h = absurd (cc)
starts_with-split (c ∷ cs) (x ∷ xs) h = elim (Bool-cases (c == x)) [
  | inl e ↦
      let (r, split) = starts_with-split cs xs (rw e at h) in
      (r, ap₂ (λ y ys. y ∷ ys) (sym (==→eq c x e)) split)
  | inr e ↦ absurd (cc (rw e at h))
]

abbrev substitute : ℕ → Bytes → Bytes → Bytes → Bytes
substitute c cs new xs = substitute_from c cs new 0 xs

module _ (c : ℕ) (cs new : Bytes) where
  -- The text up to the first match, and what the search for it gives.
  split_first :
      (xs : Bytes) (i : ℕ)
      → ((find_from (c ∷ cs) xs i ≡ none) × (substitute c cs new xs ≡ xs))
        ⊎ ((l : Bytes) × (r : Bytes) × (xs ≡ l ++ ((c ∷ cs) ++ r))
            × (find_from (c ∷ cs) xs i ≡ some (i + length l))
            × (substitute c cs new xs ≡ l ++ (new ++ substitute c cs new r)))
  unfolding find_from
  split_first [] i = inl (refl, refl)
  split_first (x ∷ xs) i = elim (Bool-cases (starts_with (c ∷ cs) (x ∷ xs))) [
    | inl e ↦
        let (r, split) = starts_with-split (c ∷ cs) (x ∷ xs) e in
        let behind : substitute_from c cs new (length cs) xs ≡ substitute c cs new r =
          ap (λ ys. substitute_from c cs new (length cs) (drop 1 ys)) split
          ∙ substitute_from-append c cs new cs r in
        inr ([], r, split, rw e (ap some (omega arith)), rw e (ap (λ ys. new ++ ys) behind))
    | inr e ↦ elim (split_first xs (suc i)) [
      | inl (q, s) ↦ inl (rw (e, q) refl, rw e (ap (λ ys. x ∷ ys) s))
      | inr (l, r, p, q, s) ↦ inr (
        x ∷ l,
        r,
        ap (λ ys. x ∷ ys) p,
        rw (e, q) (ap some (omega arith)),
        rw e (ap (λ ys. x ∷ ys) s),
      )
    ]
  ]

  -- No match starts in bytes other than the first one of the search text.
  find_from-skip :
      (mid xs : Bytes) (i : ℕ)
      → mem c mid ≡ false
      → find_from (c ∷ cs) (mid ++ xs) i ≡ find_from (c ∷ cs) xs (i + length mid)
  unfolding find_from
  find_from-skip [] xs i out = ap (find_from (c ∷ cs) xs) (omega arith)
  find_from-skip (x ∷ mid) xs i out = rw (not-mem-head c x mid out) (
      find_from-skip mid xs (suc i) (not-mem-tail c x mid out)
      ∙ ap (find_from (c ∷ cs) xs) (omega arith))

  find_behind_prefix :
      (l mid xs : Bytes)
      → mem c mid ≡ false
      → find (l ++ (mid ++ xs)) (c ∷ cs) (length l) ≡ find_from (c ∷ cs) xs (length l + length mid)
  unfolding find
  find_behind_prefix l mid xs out =
      let e : ltb (length (l ++ (mid ++ xs))) (length l) ≡ false =
        ground (arith, length-append l (mid ++ xs)) in
      rw (e, drop-length-append l (mid ++ xs)) (find_from-skip mid xs (length l) out)

take-drop : (n : ℕ) (xs : Bytes) → take n xs ++ drop n xs ≡ xs
take-drop zero xs = refl
take-drop (suc n) [] = refl
take-drop (suc n) (x ∷ xs) = ap (λ ys. x ∷ ys) (take-drop n xs)

regroup : (l mid m xs : Bytes) → l ++ (mid ++ (m ++ xs)) ≡ (l ++ (mid ++ m)) ++ xs
regroup l mid m xs =
    ap (λ ys. l ++ ys) (sym (append_assoc mid m xs)) ∙ sym (append_assoc l (mid ++ m) xs)

module _ (c : ℕ) (cs new : Bytes) where
  -- What of the inserted text stands in front of the next search, and what is searched again.
  abbrev passed : Bytes
  passed = take (length new - length cs) new

  abbrev searched_again : Bytes
  searched_again = drop (length new - length cs) new

  cut : (l xs : Bytes) → l ++ (new ++ xs) ≡ (l ++ passed) ++ (searched_again ++ xs)
  cut l xs =
      ap (λ ys. l ++ (ys ++ xs)) (sym (take-drop (length new - length cs) new))
      ∙ ap (λ ys. l ++ ys) (append_assoc passed searched_again xs)
      ∙ sym (append_assoc l passed (searched_again ++ xs))

  module _ (again : mem c searched_again ≡ false) (long : length cs ≤ length new) where
    -- The next search starts behind `passed`.
    position :
        (l : Bytes)
        → length l + length new + 1 < size_max
        → next (length l) (c ∷ cs) new ≡ length (l ++ passed)
    position l fits =
        let parts = length-append l passed in
        let cut_at = length-take (length new - length cs) new in omega arith

    loop_substitute :
        (fuel : ℕ) (l mid xs : Bytes)
        → mem c mid ≡ false
        → length xs < fuel
        → length l + length mid + (length xs + length xs * length new) < size_max
        → replace_loop fuel (c ∷ cs) new (length l) (l ++ (mid ++ xs))
          ≡ some (l ++ (mid ++ substitute c cs new xs))
    loop_substitute zero l mid xs out more fits = absurd (omega arith)
    loop_substitute (suc fuel) l mid xs out more fits =
        elim (split_first c cs new xs (length l + length mid)) [
          | inl (q, s) ↦
              loop_none fuel (c ∷ cs) new (length l) (l ++ (mid ++ xs))
                (find_behind_prefix c cs new l mid xs out ∙ q)
              ∙ ap (λ ys. some (l ++ (mid ++ ys))) (sym s)
          | inr (m, r, p, q, s) ↦
              let lm = l ++ (mid ++ m) in
              let rest = (c ∷ cs) ++ r in
              let text : l ++ (mid ++ xs) ≡ lm ++ rest =
                ap (λ ys. l ++ (mid ++ ys)) p ∙ regroup l mid m rest in
              let sizes = length-append l (mid ++ m) in
              let sizes' = length-append mid m in
              let tail = length-append cs r in
              let size : length xs ≡ length m + (suc (length cs) + length r) =
                ap length p ∙ length-append m rest ∙ omega arith in
              let product = ap (λ (t : ℕ). t * length new) size in
              let at : find (lm ++ rest) (c ∷ cs) (length l) ≡ some (length lm) =
                ap (λ t. find t (c ∷ cs) (length l)) (sym text)
                ∙ find_behind_prefix c cs new l mid xs out
                ∙ q
                ∙ ap some (omega arith) in
              let spliced_at : spliced (lm ++ rest) (length lm) (c ∷ cs) new
                  ≡ (lm ++ passed) ++ (searched_again ++ r) =
                ap₂ (λ xs ys. xs ++ (new ++ ys)) (take_before lm (c ∷ cs) r)
                  (drop_behind lm (c ∷ cs) r)
                ∙ cut lm r in
              let parts = length-append lm passed in
              let cut_at = length-take (length new - length cs) new in
              let cut_at' = length-drop (length new - length cs) new in
              ap (replace_loop (suc fuel) (c ∷ cs) new (length l)) text
              ∙ loop_some fuel (c ∷ cs) new (length l) (lm ++ rest) (length lm) at
              ∙ ap₂ (replace_loop fuel (c ∷ cs) new) (position lm (omega arith)) spliced_at
              ∙ loop_substitute fuel (lm ++ passed) searched_again r again (omega arith)
                  (omega arith)
              ∙ ap some (
                  sym (cut lm (substitute c cs new r))
                  ∙ sym (regroup l mid m (new ++ substitute c cs new r))
                  ∙ ap (λ ys. l ++ (mid ++ ys)) (sym s))
        ]

-- Let the replacement be at least as long as the search text less one byte, and let its last bytes,
-- as many as the search text has but one, be without the search text's first byte. Then
-- `replaceAll` ends with the matches replaced from left to right, and what it inserts stays as it
-- is; the text with a replacement for each of its bytes is to be shorter than a `size_t` counts.
pub replace_all-substitute :
    (src : Bytes) (c : ℕ) (cs new : Bytes)
    → mem c (searched_again c cs new) ≡ false
    → length cs ≤ length new
    → length src + length src * length new < size_max
    → replace_all src (c ∷ cs) new ≡ some (substitute_from c cs new 0 src)
unfolding replace_all
replace_all-substitute src c cs new again long fits =
    loop_substitute c cs new again long (length src + 2) [] [] src refl (omega arith) (omega arith)
