-- ===== src/Window/Start.antt =====
-- The cells of `min_win` of src/min_char_window.cpp in front of the first round.
use vcpkg_test.Prelude.{
  ℕ, ◌≡◌, ◌∙◌, ap, refl, none, some, [], ◌∷◌, true, false, arith, ◌==◌, mem, Bool-cases, inl, inr,
  Bytes, All, not-mem-tail, not-mem-head, lt→ltb, ==→eq,
}
use vcpkg_test.Window.{A, Chars, update, fresh, get_a, init_chars}
use vcpkg_test.Window.Cells.{Cells}
use vcpkg_test.Window.Dll.{update_ne, update_self}
use vcpkg_test.Window.Spec.{IsAscii}
use vcpkg_test.Window.Moves.{IsIdle}

pub record IsFresh (h : Chars) (a : ℕ) : Type 0 where
  pub at_zero : (h a).pos ≡ 0
  pub is_idle : IsIdle h a

-- The cells of the pattern are set up, and no others.
pub init_chars_lem :
    (cs : Bytes) (h : Chars)
    → All IsAscii cs
    → (g : Chars) × (init_chars cs h ≡ some g)
      × ((a : ℕ) → mem a cs ≡ true → IsFresh g a)
      × ((a : ℕ) → mem a cs ≡ false → g a ≡ h a)
unfolding init_chars get_a
init_chars_lem [] h ascii = (h, refl, (λ a m. cc), (λ a o. refl))
init_chars_lem (c ∷ cs) h (ca, ascii) =
    let r : A = record { c = c; pos = 0; next = none; prev = none } in
    let (g, e, inside, outside) = init_chars_lem cs (update h c r) ascii in
    (
      g,
      rw (lt→ltb c 128 ca) e,
      (λ a m. elim (Bool-cases (mem a cs)) [
        | inl i ↦ inside a i
        | inr o ↦
            let q : (a == c) ≡ true = ground arith in
            let w = outside a o ∙ ap (update h c r) (==→eq a c q) ∙ update_self h c r in
            record {
              at_zero = ap (λ (x : A). x.pos) w;
              is_idle = record {
                next_none = ap (λ (x : A). x.next) w;
                prev_none = ap (λ (x : A). x.prev) w;
              };
            }
      ]),
      (λ a o. outside a (not-mem-tail a c cs o) ∙ update_ne h c a r (not-mem-head a c cs o)),
    )

pub start-Cells :
    (pattern input : Bytes) (h : Chars)
    → ((a : ℕ) → mem a pattern ≡ true → IsFresh h a)
    → ((a : ℕ) → mem a pattern ≡ false → h a ≡ fresh)
    → Cells pattern input 0 h []
start-Cells pattern input h inside outside = record {
  is_linked = record { chain = tt; distinct = tt; some_cell = λ e _. absurd (cc) };
  idle = λ c o m. (inside c m).is_idle;
  known = λ c m. omega (arith, (inside c m).at_zero);
  unknown = λ c o. ap (λ (x : A). x.pos) (outside c o);
  few = omega arith;
  tracks = record {
    within = λ a m. cc;
    seen = λ c m. absurd (cc);
    unseen = λ c o m k lt. absurd (omega arith);
    oldest_first = tt;
  };
}
