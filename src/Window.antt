-- ===== src/Window.antt =====
-- src/min_char_window.cpp: the intrusive list `List<A>` and `min_win` over the 256 cells of
-- `chars`. A pointer `A*` is the index of its cell, and `none` is the null pointer. A step returns
-- `none` where the program has undefined behaviour (an index outside the array, a null pointer that
-- is followed) or lets an exception escape.
mod Best
mod Dll
pub mod Doubled
pub mod Repeated
mod Links
mod Order
mod Pigeonhole
mod Moves
mod Touch
mod Track
mod Visit
pub mod Spec
mod Cells
mod Start
mod Round
pub mod Total
mod OneWide
mod Single
mod Miscounts
pub mod Miscounted
mod Scan
pub mod NonAscii
mod Tests
pub mod Shortest
use vcpkg_test.Prelude.{
  ℕ, suc, ◌+◌, ◌-◌, ◌%◌, ◌^◌, Bool, true, false, ◌&&◌, ◌||◌, Option, none, some, [], ◌∷◌, ltb, ◌==◌,
  if◌then◌else◌, is_none, ◌>>=◌, Bytes, size_max, length, take, drop,
}

abbrev pub marker : ℕ
marker = size_max

pub record A : Type 0 where
  pub c : ℕ
  pub pos : ℕ
  pub next : Option ℕ
  pub prev : Option ℕ

abbrev pub Chars : Type 0
Chars = ℕ → A

-- The cells, and the two fields of `List<A>`.
pub record Mem : Type 0 where
  pub chars : Chars
  pub head : Option ℕ
  pub tail : Option ℕ

unfoldable pub update : Chars → ℕ → A → Chars
update h p a q = if q == p then a else h q

abbrev pub with_next : Chars → ℕ → Option ℕ → Chars
with_next h p v = update h p (record (h p) { next = v })

abbrev pub with_prev : Chars → ℕ → Option ℕ → Chars
with_prev h p v = update h p (record (h p) { prev = v })

abbrev pub set_next : ℕ → Option ℕ → Mem → Mem
set_next p v m = record m { chars = with_next m.chars p v }

abbrev pub set_prev : ℕ → Option ℕ → Mem → Mem
set_prev p v m = record m { chars = with_prev m.chars p v }

abbrev pub set_pos : ℕ → ℕ → Mem → Mem
set_pos p v m = record m { chars = update m.chars p (record (m.chars p) { pos = v }) }

-- Pointers compare equal if both are null or both name one cell.
abbrev pub same : Option ℕ → Option ℕ → Bool
same none none = true
same none (some q) = false
same (some p) none = false
same (some p) (some q) = p == q

-- The first branch of `emplace_back`: `head = t`, or `tail->prev = t`.
abbrev link_tail : ℕ → Mem → Option ℕ → Mem
link_tail t m none = record m { head = some t }
link_tail t m (some q) = set_prev q (some t) m

unfoldable pub emplace_back : ℕ → Mem → Mem
emplace_back t m =
    let linked = link_tail t m m.tail in
    let cur_tail = linked.tail in
    let moved = record linked { tail = some t } in set_prev t none (set_next t cur_tail moved)

abbrev unlink_head : Mem → Option ℕ → Mem
unlink_head m none = m
unlink_head m (some p) = set_next p none (record m { head = some p })

unfoldable pop_front : Mem → Option ℕ × Mem
pop_front m = elim m.head [ none ↦ (none, m) | some h ↦ (some h, unlink_head m (m.chars h).prev) ]

abbrev unlink_tail : Mem → Option ℕ → Mem
unlink_tail m none = m
unlink_tail m (some p) = set_prev p none (record m { tail = some p })

unfoldable pop_back : Mem → Option ℕ × Mem
pop_back m = elim m.tail [ none ↦ (none, m) | some h ↦ (some h, unlink_tail m (m.chars h).next) ]

-- The last two assignments of `pop`, for a cell between two others.
abbrev pub unlink_inner : ℕ → Mem → Option (Option ℕ × Mem)
unlink_inner t m = do
  n ← (m.chars t).next
  let front = set_prev n (m.chars t).prev m
  p ← (front.chars t).prev
  some (some t, set_next p (front.chars t).next front)

unfoldable pub pop : ℕ → Mem → Option (Option ℕ × Mem)
unfolding pop_front pop_back
pop t m =
    if same m.head (some t)
    then some (pop_front m)
    else if same m.tail (some t)
    then some (pop_back m)
    else unlink_inner t m

unfoldable pub front : Mem → Option ℕ
front m = m.head

-- `chars[(size_t)c]`: a negative `char` becomes a number far beyond the array.
unfoldable pub get_a : ℕ → Option ℕ
get_a c = if ltb c 128 then some c else none

-- `std::array<A, 256> chars{}`
abbrev pub fresh : A
fresh = record { c = 0; pos = marker; next = none; prev = none }

-- `for (auto&& c : pattern) get_a(c) = {c, 0};`
unfoldable pub init_chars : Bytes → Chars → Option Chars
init_chars [] h = some h
init_chars (c ∷ cs) h = do
  p ← get_a c
  init_chars cs (update h p (record { c = c; pos = 0; next = none; prev = none }))

-- The local variables of `min_win`.
pub record Search : Type 0 where
  pub mem : Mem
  pub size : ℕ
  pub min_distance : ℕ
  pub best : ℕ

-- `if (size == 0 || (!a.next && !a.prev)) { list.emplace_back(&a); ++size; }`
unfoldable pub insert_new : ℕ → Search → Search
insert_new a s =
    if (s.size == 0) || (is_none (s.mem.chars a).next && is_none (s.mem.chars a).prev)
    then record s { mem = emplace_back a s.mem; size = (s.size + 1) % 2 ^ 64 }
    else s

-- `if (a.prev) { auto top = list.pop(&a); list.emplace_back(top); }`
unfoldable pub move_old : ℕ → Search → Option Search
move_old a s =
    if is_none (s.mem.chars a).prev
    then some s
    else do (top, popped) ← pop a s.mem; t ← top; some (record s { mem = emplace_back t popped })

-- `if (size == pattern.size()) { … }`
unfoldable pub measure : ℕ → ℕ → Search → Option Search
measure pattern_size cur s =
    if s.size == pattern_size
    then (do
      top ← front s.mem
      let distance = (cur + 2 ^ 64 - (s.mem.chars top).pos) % 2 ^ 64
      some (
          if ltb distance s.min_distance
          then record s { min_distance = distance; best = cur }
          else s))
    else some s

-- One round of the loop over the input.
unfoldable pub visit : ℕ → ℕ → ℕ → Search → Option Search
visit pattern_size cur c s = do
  a ← get_a c
  if (s.mem.chars a).pos == marker then some s else (do
    moved ← move_old a (insert_new a (record s { mem = set_pos a cur s.mem }))
    measure pattern_size cur moved)

unfoldable pub scan : ℕ → ℕ → Bytes → Search → Option Search
scan pattern_size cur [] s = some s
scan pattern_size cur (c ∷ cs) s = do
  s' ← visit pattern_size cur c s
  scan pattern_size (suc cur) cs s'

-- `std::string::substr`, which throws if it starts behind the end.
unfoldable pub substr : Bytes → ℕ → ℕ → Option Bytes
substr s start count = if ltb (length s) start then none else some (take count (drop start s))

-- The locals before the first round.
abbrev pub start : Chars → Search
start chars = record {
  mem = record { chars = chars; head = none; tail = none };
  size = 0;
  min_distance = marker;
  best = 0;
}

-- What follows the loop.
unfoldable pub result : Bytes → Search → Option Bytes
result input s =
    if s.min_distance == marker
    then some []
    else substr input ((s.best + 2 ^ 64 - s.min_distance) % 2 ^ 64) ((s.min_distance + 1) % 2 ^ 64)

unfoldable pub min_win : Bytes → Bytes → Option Bytes
min_win input pattern = do
  chars ← init_chars pattern (λ _. fresh)
  s ← scan (length pattern) 0 input (start chars)
  result input s
