-- ===== src/Window/NonAscii.antt =====
-- `min_win` of src/min_char_window.cpp with a byte above 127, which is a negative `char` and as a
-- `size_t` no index of `chars`.
use vcpkg_test.Prelude.{
  ℕ, suc, ◌≤◌, ◌≡◌, ◌⊎◌, refl, true, false, none, [], ◌∷◌, arith, ◌==◌, mem, Bool-cases,
  Option-cases, ltb, inl, inr, Bytes, length, ==→eq, subst,
}
use vcpkg_test.Window.{Chars, Search, get_a, init_chars, visit, scan, min_win, fresh, start}

-- A byte that is none of the 128 characters is in the text.
abbrev pub HasNonAscii : Bytes → Type 0
HasNonAscii text = (c : ℕ) × (mem c text ≡ true) × (128 ≤ c)

get_a-out : (c : ℕ) → 128 ≤ c → get_a c ≡ none
unfolding get_a
get_a-out c le = let e : ltb c 128 ≡ false = ground arith in rw e refl

-- Its place in a text: in front, or later.
HasNonAscii-cases : (x : ℕ) (xs : Bytes) → HasNonAscii (x ∷ xs) → (128 ≤ x) ⊎ HasNonAscii xs
HasNonAscii-cases x xs (c, m, le) = elim (Bool-cases (c == x)) [
  | inl e ↦ inl (subst (λ y. 128 ≤ y) (==→eq c x e) le)
  | inr e ↦ inr (c, (rw e at m), le)
]

init_chars-out : (cs : Bytes) (h : Chars) → HasNonAscii cs → init_chars cs h ≡ none
unfolding init_chars
init_chars-out [] h (c, m, le) = absurd (cc)
init_chars-out (x ∷ xs) h out = elim (HasNonAscii-cases x xs out) [
  | inl le ↦ rw (get_a-out x le) refl
  | inr later ↦ elim (Option-cases (get_a x)) [
    | inl e ↦ rw e refl
    | inr (p, e) ↦ rw (e, init_chars-out xs _ later) refl
  ]
]

visit-out : (n cur c : ℕ) (s : Search) → 128 ≤ c → visit n cur c s ≡ none
unfolding visit
visit-out n cur c s le = rw (get_a-out c le) refl

scan-out : (n cur : ℕ) (cs : Bytes) (s : Search) → HasNonAscii cs → scan n cur cs s ≡ none
unfolding scan
scan-out n cur [] s (c, m, le) = absurd (cc)
scan-out n cur (x ∷ xs) s out = elim (HasNonAscii-cases x xs out) [
  | inl le ↦ rw (visit-out n cur x s le) refl
  | inr later ↦ elim (Option-cases (visit n cur x s)) [
    | inl e ↦ rw e refl
    | inr (s', e) ↦ rw (e, scan-out n (suc cur) xs s' later) refl
  ]
]

-- A byte above 127 in the pattern or in the input, wherever it stands, makes `min_win` run into
-- undefined behaviour where `char` is signed, as it is in the model.
pub min_win-HasNonAscii :
    (input pattern : Bytes) → HasNonAscii pattern ⊎ HasNonAscii input → min_win input pattern ≡ none
unfolding min_win
min_win-HasNonAscii input pattern (inl out) = rw (init_chars-out pattern (λ _. fresh) out) refl
min_win-HasNonAscii input pattern (inr out) =
    elim (Option-cases (init_chars pattern (λ _. fresh))) [
      | inl e ↦ rw e refl
      | inr (h, e) ↦ rw (e, scan-out (length pattern) 0 input (start h) out) refl
    ]
