-- ===== src/Window/Cells.antt =====
-- The cells between two rounds of the loop of `min_win` of src/min_char_window.cpp, and the list
-- and the cells behind a hit.
use vcpkg_test.Prelude.{
  ℕ, suc, ◌+◌, ◌^◌, ◌≤◌, ◌<◌, ◌≡◌, ◌≢◌, ◌∙◌, sym, ap, subst, refl, none, some, Option, Bool, List,
  [], ◌∷◌, true, false, arith, ◌==◌, mem, Bool-cases, inl, inr, Bytes, get_elem?, length, ==_of_mem,
  not-mem-tail, ==→eq,
}
use vcpkg_test.Window.{A, Chars, update, marker, insert_new, move_old}
use vcpkg_test.Window.Dll.{Seg, update_ne, Relinked}
use vcpkg_test.Window.Links.{IsLinked, root}
use vcpkg_test.Window.Order.{touch, mem-touch, length-touch-le}
use vcpkg_test.Window.Moves.{counted, concrete, IsIdle}
use vcpkg_test.Window.Touch.{touch_linked, Touched}
use vcpkg_test.Window.Track.{Tracks, Tracks-hit, Tracks-miss}

-- What holds of the cells `h` and the list `order` in front of round `cur`. The oldest cell of a
-- looped list is linked to itself.
pub record Held (pattern input : Bytes) (cur : ℕ) (looped : Bool) (h : Chars) (order : List ℕ)
    : Type 0 where
  pub is_linked : IsLinked looped h order
  pub idle : (c : ℕ) → mem c order ≡ false → mem c pattern ≡ true → IsIdle h c
  pub known : (c : ℕ) → mem c pattern ≡ true → (h c).pos ≢ marker
  pub unknown : (c : ℕ) → mem c pattern ≡ false → (h c).pos ≡ marker
  pub few : length order ≤ cur
  pub tracks : Tracks pattern input cur (λ a. (h a).pos) order

abbrev pub Cells : Bytes → Bytes → ℕ → Chars → List ℕ → Type 0
Cells pattern input cur h order = Held pattern input cur false h order

abbrev pub with_pos : Chars → ℕ → ℕ → Chars
with_pos h c v = update h c (record (h c) { pos = v })

Seg-with_pos :
    (h : Chars) (c v : ℕ) (left right : Option ℕ) (xs : List ℕ)
    → Seg h left xs right
    → Seg (with_pos h c v) left xs right
unfolding update
Seg-with_pos h c v left right [] s = tt
Seg-with_pos h c v left right (x ∷ xs) (n, p, s) =
    (ground arith, ground arith, Seg-with_pos h c v (some x) right xs s)

pos-with_pos : (h : Chars) (c v : ℕ) → (with_pos h c v c).pos ≡ v
unfolding update
pos-with_pos h c v = ground arith

next-with_pos : (h : Chars) (c v a : ℕ) → (with_pos h c v a).next ≡ (h a).next
unfolding update
next-with_pos h c v a = ground arith

prev-with_pos : (h : Chars) (c v a : ℕ) → (with_pos h c v a).prev ≡ (h a).prev
unfolding update
prev-with_pos h c v a = ground arith

pub IsLinked-with_pos :
    (looped : Bool) (h : Chars) (c v : ℕ) (order : List ℕ)
    → IsLinked looped h order
    → IsLinked looped (with_pos h c v) order
IsLinked-with_pos looped h c v order k = record {
  chain = Seg-with_pos h c v (root looped order) none order k.chain;
  distinct = k.distinct;
  some_cell = k.some_cell;
}

-- Behind a character outside the pattern.
pub Held-miss :
    (pattern input : Bytes) (cur : ℕ) (looped : Bool) (h : Chars) (order : List ℕ)
    → Held pattern input cur looped h order
    → (c : ℕ) → get_elem? input cur ≡ some c
    → mem c pattern ≡ false
    → Held pattern input (suc cur) looped h order
Held-miss pattern input cur looped h order held c at out = record {
  is_linked = held.is_linked;
  idle = held.idle;
  known = held.known;
  unknown = held.unknown;
  few = omega (arith, held.few);
  tracks = Tracks-miss pattern input cur (λ a. (h a).pos) order held.tracks c at out;
}

module _ (pattern input : Bytes) (cur : ℕ) (looped : Bool) (h : Chars) (order : List ℕ)
    (held : Held pattern input cur looped h order) (small : suc cur < marker) (c : ℕ)
    (at : get_elem? input cur ≡ some c) (m : mem c pattern ≡ true) where
  IsIdle-with_pos :
      (a : ℕ) → mem a order ≡ false → mem a pattern ≡ true → IsIdle (with_pos h c cur) a
  IsIdle-with_pos a out i = record {
    next_none = next-with_pos h c cur a ∙ (held.idle a out i).next_none;
    prev_none = prev-with_pos h c cur a ∙ (held.idle a out i).prev_none;
  }

  -- Where the list is linked again with `c` as its youngest cell, the cells are as before a round.
  pub Held-touch :
      (loops : Bool) (g : Chars)
      → IsLinked loops g (touch c order)
      → Relinked (c ∷ order) (with_pos h c cur) g
      → Held pattern input (suc cur) loops g (touch c order) × ((g c).pos ≡ cur)
  Held-touch loops g k r = (
    record {
      is_linked = k;
      idle = λ a o i.
          still (r.outside a (sym (mem-touch a c order) ∙ o)) (IsIdle-with_pos a (out a o) i);
      known = λ a i. elim (Bool-cases (a == c)) [
        | inl q ↦ rw (==→eq a c q, at_c) (omega arith)
        | inr q ↦ rw (others a q) (held.known a i)
      ];
      unknown = λ a o. others a (==_of_mem a c pattern o m) ∙ held.unknown a o;
      few = omega (arith, length-touch-le c order, held.few);
      tracks =
          Tracks-hit pattern input cur (λ a. (h a).pos) order held.tracks c at (λ a. (g a).pos)
            held.is_linked.distinct m at_c others;
    },
    at_c,
  )
    where
      at_c : (g c).pos ≡ cur
      at_c = r.same_pos c ∙ pos-with_pos h c cur

      others : (a : ℕ) → (a == c) ≡ false → (g a).pos ≡ (h a).pos
      others a q =
          r.same_pos a ∙ ap (λ (x : A). x.pos) (update_ne h c a (record (h c) { pos = cur }) q)

      out : (a : ℕ) → mem a (touch c order) ≡ false → mem a order ≡ false
      out a o = not-mem-tail a c order (sym (mem-touch a c order) ∙ o)

      still : {g h1 : Chars} {a : ℕ} → g a ≡ h1 a → IsIdle h1 a → IsIdle g a
      still e i = record {
        next_none = ap (λ (x : A). x.next) e ∙ i.next_none;
        prev_none = ap (λ (x : A). x.prev) e ∙ i.prev_none;
      }

  -- The list behind a hit.
  pub Held-hit :
      (n d b : ℕ)
      → (looped ≡ false → order ≢ c ∷ [])
      → length order ≤ n
      → n + 1 < 2 ^ 64
      → Touched looped (with_pos h c cur) c order n d b
  Held-hit n d b more some_size fits =
      touch_linked looped (with_pos h c cur) c order n d b
        (IsLinked-with_pos looped h c cur order held.is_linked) (λ out. IsIdle-with_pos c out m)
        more some_size fits

module _ (pattern input : Bytes) (cur : ℕ) (h : Chars) (order : List ℕ)
    (cells : Cells pattern input cur h order) (small : suc cur < marker) (c : ℕ)
    (at : get_elem? input cur ≡ some c) where
  -- A list that is not looped holds what is counted, and stays so.
  pub Cells-hit :
      (d b : ℕ)
      → mem c pattern ≡ true
      → order ≢ c ∷ []
      → (g : Chars) × (move_old c (insert_new c (concrete (with_pos h c cur) order d b))
          ≡ some (concrete g (touch c order) d b))
        × Cells pattern input (suc cur) g (touch c order)
        × ((g c).pos ≡ cur)
  Cells-hit d b m more =
      let t =
        Held-hit pattern input cur false h order cells small c at m (length order) d b (λ _. more)
          (omega arith) (omega (arith, cells.few)) in
      let size : t.size ≡ length (touch c order) = omega (arith, t.count) in
      let (held, at_c) =
        Held-touch pattern input cur false h order cells small c at m t.loops t.cells t.is_linked
          t.relinked in
      (
        t.cells,
        t.moved ∙ ap (λ n. some (counted t.cells (touch c order) n d b)) size,
        subst (λ l. Held pattern input (suc cur) l t.cells (touch c order)) (t.no_loop refl) held,
        at_c,
      )
