-- ===== src/Window/Visit.antt =====
-- One round of the loop of `min_win` of src/min_char_window.cpp, and the invariant of the search.
use vcpkg_test.Prelude.{
  ℕ, suc, ◌+◌, ◌-◌, ◌%◌, ◌^◌, ◌<◌, ◌≡◌, ◌≢◌, ◌∙◌, sym, refl, some, List, [], ◌∷◌, ◌++◌, true, false,
  arith, ◌==◌, ltb, if◌then◌else◌, mem, Bool-cases, inl, inr, mem_self, Bytes, get_elem?, length,
  Distinct, lt→ltb, subst,
}
use vcpkg_test.Window.{Chars, Search, marker, get_a, visit, measure, front, insert_new, move_old}
use native.Mathlib.Decide.{ℕ_discrete}
use vcpkg_test.Window.Best.{Best, Best-miss, Best-short, Best-full}
use vcpkg_test.Window.Order.{erase, touch}
use vcpkg_test.Window.Pigeonhole.{all_of_length, missing_of_length}
use vcpkg_test.Window.Moves.{counted, concrete}
use vcpkg_test.Window.Cells.{Cells, Cells-hit, Held-miss, with_pos}

pub measure_short : (n cur : ℕ) (s : Search) → s.size ≢ n → measure n cur s ≡ some s
unfolding measure
measure_short n cur s ne = let e : (s.size == n) ≡ false = ground arith in rw e

pub measure_full :
    (n cur : ℕ) (g : Chars) (f : ℕ) (rest : List ℕ) (size d b : ℕ)
    → size ≡ n
    → (g f).pos < suc cur
    → suc cur < marker
    → measure n cur (counted g (f ∷ rest) size d b)
      ≡ some (
          counted g
            (f ∷ rest)
            size
            (if ltb (cur - (g f).pos) d then cur - (g f).pos else d)
            (if ltb (cur - (g f).pos) d then cur else b))
unfolding measure front
measure_full n cur g f rest size d b e lt small =
    let full : (size == n) ≡ true = ground arith in
    let gap : (cur + 2 ^ 64 - (g f).pos) % 2 ^ 64 ≡ cur - (g f).pos = omega arith in
    rw (full, gap) (elim (Bool-cases (ltb (cur - (g f).pos) d)) [ inl q ↦ rw q | inr q ↦ rw q ])

-- A round at a character outside the pattern does nothing.
pub visit_miss :
    (n cur c : ℕ) (s : Search) → c < 128 → (s.mem.chars c).pos ≡ marker → visit n cur c s ≡ some s
unfolding visit get_a
visit_miss n cur c s ascii e = rw (lt→ltb c 128 ascii, e)

pub visit_hit :
    (n cur c : ℕ) (h : Chars) (order : List ℕ) (size d b : ℕ) (moved : Search)
    → c < 128
    → (h c).pos ≢ marker
    → move_old c (insert_new c (counted (with_pos h c cur) order size d b)) ≡ some moved
    → visit n cur c (counted h order size d b) ≡ measure n cur moved
unfolding visit get_a
visit_hit n cur c h order size d b moved ascii ne e =
    let q : ((h c).pos == marker) ≡ false = ground arith in rw (lt→ltb c 128 ascii, q, e)

pub touch_cons : (c : ℕ) (xs : List ℕ) → (f : ℕ) × (rest : List ℕ) × (touch c xs ≡ f ∷ rest)
unfolding touch
touch_cons c xs = first_of_snoc (erase c xs)
  where
    first_of_snoc : (ys : List ℕ) → (f : ℕ) × (rest : List ℕ) × (ys ++ c ∷ [] ≡ f ∷ rest)
    first_of_snoc [] = (c, [], refl)
    first_of_snoc (y ∷ ys) = (y, ys ++ c ∷ [], refl)

abbrev Measured : Bytes → Bytes → ℕ → Chars → List ℕ → ℕ → ℕ → Type 0
Measured pattern input cur g order d b =
    (d' : ℕ) × (b' : ℕ) × (measure (length pattern) cur (concrete g order d b)
      ≡ some (concrete g order d' b'))
    × Best pattern input (suc cur) d' b'

-- The test at the end of a hit keeps the best window.
measure-Best :
    (pattern input : Bytes) (cur : ℕ) (g : Chars) (f : ℕ) (rest : List ℕ) (d b : ℕ)
    → Best pattern input cur d b
    → Cells pattern input (suc cur) g (f ∷ rest)
    → Distinct pattern
    → suc cur < marker
    → Measured pattern input cur g (f ∷ rest) d b
measure-Best pattern input cur g f rest d b best cells dp small =
    let order = f ∷ rest in
    let t = cells.tracks in
    let distinct = cells.is_linked.distinct in
    elim (ℕ_discrete (length order) (length pattern)) [
      | no ne ↦
          let (a, m, out) = missing_of_length order pattern distinct t.within dp ne in
          (
            d,
            b,
            measure_short (length pattern) cur (concrete g order d b) ne,
            Best-short pattern input cur d b best a m (t.unseen a out m),
          )
      | yes eq ↦
          let before = (t.seen f (mem_self f rest)).before in
          (
            if ltb (cur - (g f).pos) d then cur - (g f).pos else d,
            if ltb (cur - (g f).pos) d then cur else b,
            measure_full (length pattern) cur g f rest (length order) d b eq before small,
            Best-full pattern input cur d b best (λ a. (g a).pos) f rest t
                (all_of_length order pattern distinct t.within eq),
          )
    ]

abbrev Visited : Bytes → Bytes → ℕ → ℕ → Chars → List ℕ → ℕ → ℕ → Type 0
Visited pattern input cur c h order d b =
    (g : Chars) × (order' : List ℕ) × (d' : ℕ) × (b' : ℕ) × (visit (length pattern) cur c
        (concrete h order d b)
      ≡ some (concrete g order' d' b'))
    × Cells pattern input (suc cur) g order'
    × Best pattern input (suc cur) d' b'
    × (order' ≡ (if mem c pattern then touch c order else order))

module _ (pattern input : Bytes) (cur : ℕ) (h : Chars) (order : List ℕ) (d b : ℕ)
    (cells : Cells pattern input cur h order) (best : Best pattern input cur d b)
    (small : suc cur < marker) (c : ℕ) (at : get_elem? input cur ≡ some c) (ascii : c < 128) where
  Visited-miss :
      (p : ℕ)
      → mem p pattern ≡ true
      → mem c pattern ≡ false
      → Visited pattern input cur c h order d b
  Visited-miss p some_p out = (
    h,
    order,
    d,
    b,
    visit_miss (length pattern) cur c (concrete h order d b) ascii (cells.unknown c out),
    Held-miss pattern input cur false h order cells c at out,
    Best-miss pattern input cur d b best c p at out some_p,
    rw out,
  )

  Visited-hit :
      Distinct pattern
      → mem c pattern ≡ true
      → order ≢ c ∷ []
      → Visited pattern input cur c h order d b
  Visited-hit dp m more =
      let (g, e, cells', at_c) = Cells-hit pattern input cur h order cells small c at d b m more in
      let order' = touch c order in
      let (f, rest, q) = touch_cons c order in
      let (d', b', e', best') =
        subst (λ xs. Measured pattern input cur g xs d b) (sym q)
          (measure-Best pattern input cur g f rest d b best
            (subst (Cells pattern input (suc cur) g) q cells') dp small) in
      (
        g,
        order',
        d',
        b',
        visit_hit (length pattern) cur c h order (length order) d b (concrete g order' d b) ascii
              (cells.known c m) e
            ∙ e',
        cells',
        best',
        rw m,
      )

  pub visit-Visited :
      (p : ℕ)
      → mem p pattern ≡ true
      → Distinct pattern
      → (mem c pattern ≡ true → order ≢ c ∷ [])
      → Visited pattern input cur c h order d b
  visit-Visited p some_p dp more = elim (Bool-cases (mem c pattern)) [
    | inl m ↦ Visited-hit dp m (more m)
    | inr out ↦ Visited-miss p some_p out
  ]
