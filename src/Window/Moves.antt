-- ===== src/Window/Moves.antt =====
-- The locals of `min_win` of src/min_char_window.cpp over a linked list, and the branches of the
-- two tests that move a cell.
use vcpkg_test.Prelude.{ℕ, ◌+◌, ◌≤◌, ◌^◌, ◌%◌, ◌≡◌, none, some, List, arith, length}
use vcpkg_test.Window.{Chars, Mem, Search, insert_new, move_old, pop, emplace_back}
use vcpkg_test.Window.Dll.{}
use vcpkg_test.Window.Links.{linked}
use vcpkg_test.Window.Order.{}

-- The locals when the list holds the cells `order` and `size` is `n`.
abbrev pub counted : Chars → List ℕ → ℕ → ℕ → ℕ → Search
counted h order n d b = record { mem = linked h order; size = n; min_distance = d; best = b }

abbrev pub concrete : Chars → List ℕ → ℕ → ℕ → Search
concrete h order d b = counted h order (length order) d b

-- A cell with no links.
pub record IsIdle (h : Chars) (c : ℕ) : Type 0 where
  pub next_none : (h c).next ≡ none
  pub prev_none : (h c).prev ≡ none

module _ (c : ℕ) (s : Search) where
  pub move_old_youngest : (s.mem.chars c).prev ≡ none → move_old c s ≡ some s
  unfolding move_old
  move_old_youngest e = rw e

  pub move_old_older :
      (y : ℕ) (m : Mem)
      → (s.mem.chars c).prev ≡ some y
      → pop c s.mem ≡ some (some c, m)
      → move_old c s ≡ some (record s { mem = emplace_back c m })
  unfolding move_old
  move_old_older y m e p = rw (e, p)

  pub insert_new_idle :
      IsIdle s.mem.chars c
      → insert_new c s ≡ record s { mem = emplace_back c s.mem; size = (s.size + 1) % 2 ^ 64 }
  unfolding insert_new
  insert_new_idle idle = ground arith

  pub insert_new_older : (y : ℕ) → 1 ≤ s.size → (s.mem.chars c).prev ≡ some y → insert_new c s ≡ s
  unfolding insert_new
  insert_new_older y e p = ground arith

  pub insert_new_youngest :
      (z : ℕ) → 1 ≤ s.size → (s.mem.chars c).next ≡ some z → insert_new c s ≡ s
  unfolding insert_new
  insert_new_youngest z e p = ground arith
