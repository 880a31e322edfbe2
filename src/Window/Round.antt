-- ===== src/Window/Round.antt =====
-- A round of the loop of `min_win` of src/min_char_window.cpp at any character of the pattern, also
-- at the second hit of a cell that is alone in the list.
use vcpkg_test.Prelude.{
  ℕ, suc, ◌+◌, ◌-◌, ◌^◌, ◌≤◌, ◌<◌, ◌≡◌, ◌≢◌, ◌⊎◌, ◌∙◌, sym, subst, refl, some, Bool, List, [], ◌∷◌,
  true, false, arith, mem, Bool-cases, inl, inr, Bytes, get_elem?, length, ltb, ltb→lt,
  if◌then◌else◌, mem_self,
}
use native.Mathlib.Decide.{ℕ_discrete}
use vcpkg_test.Window.{Chars, marker, insert_new, move_old, measure, visit}
use vcpkg_test.Window.Cells.{Held, Held-hit, Held-touch, with_pos, IsLinked-with_pos}
use vcpkg_test.Window.Dll.{Relinked}
use vcpkg_test.Window.Links.{IsLinked}
use vcpkg_test.Window.Order.{touch}
use vcpkg_test.Window.Spec.{IsAscii}
use vcpkg_test.Window.Moves.{counted}
use vcpkg_test.Window.Touch.{touch_twice}
use vcpkg_test.Window.Visit.{measure_short, measure_full, visit_hit, touch_cons}

-- What the test at the end of a hit leaves: the window so far, or one that ends here.
abbrev pub Outcome : ℕ → ℕ → ℕ → ℕ → ℕ → ℕ → ℕ → Type 0
Outcome n cur size d b d' b' =
    ((d' ≡ d) × (b' ≡ b)) ⊎ ((size ≡ n) × (b' ≡ cur) × (d' ≤ cur) × (d' < d))

abbrev Measured : ℕ → ℕ → Chars → List ℕ → ℕ → ℕ → ℕ → Type 0
Measured n cur g order size d b =
    (d' : ℕ) × (b' : ℕ) × (measure n cur (counted g order size d b)
      ≡ some (counted g order size d' b'))
    × Outcome n cur size d b d' b'

measure-Outcome :
    (n cur : ℕ) (g : Chars) (f : ℕ) (rest : List ℕ) (size d b : ℕ)
    → (g f).pos < suc cur
    → suc cur < marker
    → Measured n cur g (f ∷ rest) size d b
measure-Outcome n cur g f rest size d b before small = elim (ℕ_discrete size n) [
  | no ne ↦ (d, b, measure_short n cur (counted g (f ∷ rest) size d b) ne, inl (refl, refl))
  | yes eq ↦ (
    if ltb (cur - (g f).pos) d then cur - (g f).pos else d,
    if ltb (cur - (g f).pos) d then cur else b,
    measure_full n cur g f rest size d b eq before small,
    elim (Bool-cases (ltb (cur - (g f).pos) d)) [
      | inl q ↦ rw q (inr (eq, refl, omega arith, ltb→lt (cur - (g f).pos) d q))
      | inr q ↦ rw q (inl (refl, refl))
    ],
  )
]

-- Whether the list counts a new character, or the only one for a second time.
abbrev pub Counts : Bool → Bool → ℕ → List ℕ → ℕ → ℕ → Type 0
Counts looped loops c order size count =
    ((looped ≡ false → order ≢ c ∷ [])
      × (looped ≡ false → loops ≡ false)
      × (count + length order ≡ size + length (touch c order)))
    ⊎ ((order ≡ c ∷ []) × (looped ≡ false) × (loops ≡ true) × (count ≡ size + 1))

pub record Round (pattern input : Bytes) (cur : ℕ) (looped : Bool) (h : Chars) (order : List ℕ)
    (n size d b c : ℕ) : Type 0 where
  pub loops : Bool
  pub cells : Chars
  pub count : ℕ
  pub distance : ℕ
  pub best : ℕ
  pub ran :
      visit n cur c (counted h order size d b)
      ≡ some (counted cells (touch c order) count distance best)
  pub held : Held pattern input (suc cur) loops cells (touch c order)
  pub outcome : Outcome n cur count d b distance best
  pub counts : Counts looped loops c order size count
  pub unlooped : looped ≡ true → loops ≡ false → 2 ≤ length order

module _ (pattern input : Bytes) (cur : ℕ) (looped : Bool) (h : Chars) (order : List ℕ)
    (n size d b : ℕ) (held : Held pattern input cur looped h order) (small : suc cur < marker)
    (c : ℕ) (at : get_elem? input cur ≡ some c) (ascii : IsAscii c) (m : mem c pattern ≡ true) where
  measured :
      (loops : Bool) (g : Chars) (count : ℕ)
      → move_old c (insert_new c (counted (with_pos h c cur) order size d b))
        ≡ some (counted g (touch c order) count d b)
      → IsLinked loops g (touch c order)
      → Relinked (c ∷ order) (with_pos h c cur) g
      → Counts looped loops c order size count
      → (looped ≡ true → loops ≡ false → 2 ≤ length order)
      → Round pattern input cur looped h order n size d b c
  measured loops g count moved k r counts unlooped =
      let (behind, _) = Held-touch pattern input cur looped h order held small c at m loops g k r in
      let (f, rest, q) = touch_cons c order in
      let first : mem f (touch c order) ≡ true = rw q (mem_self f rest) in
      let (d', b', e, outcome) =
        subst (λ xs. Measured n cur g xs count d b) (sym q)
          (measure-Outcome n cur g f rest count d b (behind.tracks.seen f first).before small) in
      record {
        loops = loops;
        cells = g;
        count = count;
        distance = d';
        best = b';
        ran =
            visit_hit n cur c h order size d b (counted g (touch c order) count d b) ascii
              (held.known c m) moved
            ∙ e;
        held = behind;
        outcome = outcome;
        counts = counts;
        unlooped = unlooped;
      }

  Round-touch :
      (looped ≡ false → order ≢ c ∷ [])
      → length order ≤ size
      → size + 1 < 2 ^ 64
      → Round pattern input cur looped h order n size d b c
  Round-touch more some_size fits =
      let t =
        Held-hit pattern input cur looped h order held small c at m size d b more some_size fits in
      measured t.loops t.cells t.size t.moved t.is_linked t.relinked
        (inl (more, t.no_loop, t.count)) t.unlooped

  Round-twice :
      order ≡ c ∷ []
      → looped ≡ false
      → size + 1 < 2 ^ 64
      → Round pattern input cur looped h order n size d b c
  Round-twice e q fits =
      let k = subst (IsLinked false (with_pos h c cur)) e (
        subst (λ l. IsLinked l (with_pos h c cur) order) q
          (IsLinked-with_pos looped h c cur order held.is_linked)) in
      let (g, moved, k', r) = touch_twice (with_pos h c cur) c size d b k fits in
      measured true g (size + 1)
        (subst
          (λ o.
            move_old c (insert_new c (counted (with_pos h c cur) o size d b))
            ≡ some (counted g (touch c o) (size + 1) d b))
          (sym e) moved)
        (subst (λ o. IsLinked true g (touch c o)) (sym e) k')
        (subst (λ o. Relinked (c ∷ o) (with_pos h c cur) g) (sym e) r) (inr (e, q, refl, refl))
        (λ a f. absurd (cc f))

  alone : (order : List ℕ) → (order ≡ c ∷ []) ⊎ (order ≢ c ∷ [])
  alone order = elim (List-discrete order (c ∷ [])) [ yes e ↦ inl e | no ne ↦ inr ne ]
    where
      List-discrete : Discrete (List ℕ)
      List-discrete = hlevel (ℕ_discrete)

  -- A round at a character of the pattern runs without a fault, whatever the list is.
  pub Round-hit :
      length order ≤ size → size + 1 < 2 ^ 64 → Round pattern input cur looped h order n size d b c
  Round-hit some_size fits = elim (Bool-cases looped) [
    | inl e ↦ Round-touch (λ f. absurd (cc (e, f))) some_size fits
    | inr e ↦ elim (alone order) [
      | inl q ↦ Round-twice q e fits
      | inr ne ↦ Round-touch (λ _. ne) some_size fits
    ]
  ]
