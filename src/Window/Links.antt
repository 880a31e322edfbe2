-- ===== src/Window/Links.antt =====
-- `emplace_back` and `pop` of `List<A>`, run on a well linked list.
use vcpkg_test.Prelude.{
  ℕ, ◌≡◌, ◌≢◌, Bool, true, Option, subst, refl, none, some, List, [], ◌∷◌, ◌++◌, false, arith, ◌==◌,
  mem, Distinct, ap, sym, ◌∙◌, ==_of_mem, ==_refl, mem_self, mem_cons, not-mem-tail, mem_left,
  mem_right, apart_sym, ==_of_mem_right, Distinct-split, Distinct-remove, Distinct-snoc,
}
use vcpkg_test.Window.{
  Chars, Mem, set_next, set_prev, unlink_inner, with_next, with_prev, emplace_back, pop,
}
use vcpkg_test.Window.Dll.{
  first, last, last_of, Seg, last_of-mem, Seg-append, Seg-split, Seg-update, Seg-first, Seg-last,
  update_ne, next-with_next, next-with_prev, prev-with_prev, Relinked, Relinked-with_next,
  Relinked-with_prev, Relinked-trans,
}

-- The list object whose cells are `xs`, oldest first.
abbrev pub linked : Chars → List ℕ → Mem
linked h xs = record { chars = h; head = first xs none; tail = last none xs }

-- What the oldest cell has for an older neighbour: none, or itself where the list is looped.
abbrev pub root : Bool → List ℕ → Option ℕ
root false xs = none
root true xs = first xs none

pub record IsLinked (looped : Bool) (h : Chars) (xs : List ℕ) : Type 0 where
  pub chain : Seg h (root looped xs) xs none
  pub distinct : Distinct xs
  pub some_cell : looped ≡ true → xs ≢ []

root-append :
    (looped : Bool) (x : ℕ) (xs ys : List ℕ) → root looped (x ∷ xs) ≡ root looped (x ∷ xs ++ ys)
root-append false x xs ys = refl
root-append true x xs ys = refl

last_of-snoc : (x : ℕ) (xs : List ℕ) (t : ℕ) → last_of x (xs ++ t ∷ []) ≡ t
last_of-snoc x [] t = refl
last_of-snoc x (y ∷ ys) t = last_of-snoc y ys t

-- Where a list is linked, a cell outside it is put at its end.
pub emplace_back-linked :
    (looped : Bool) (h : Chars) (t : ℕ) (xs : List ℕ)
    → IsLinked looped h xs
    → mem t xs ≡ false
    → (g : Chars) × (emplace_back t (linked h xs) ≡ linked g (xs ++ t ∷ []))
      × IsLinked looped g (xs ++ t ∷ [])
      × Relinked (t ∷ xs) h g
unfolding emplace_back
emplace_back-linked true h t [] l out = absurd (l.some_cell refl refl)
emplace_back-linked false h t [] l out =
    let h1 = with_next h t none in
    let g = with_prev h1 t none in
    (
      g,
      refl,
      record {
        chain =
            (next-with_prev h1 t none t ∙ next-with_next h t none, prev-with_prev h1 t none, tt);
        distinct = (refl, tt);
        some_cell = λ _ e. cc;
      },
      Relinked-trans (t ∷ []) h (Relinked-with_next (t ∷ []) h t none (ground arith))
          (Relinked-with_prev (t ∷ []) h1 t none (ground arith)),
    )
emplace_back-linked looped h t (x ∷ xs) l out =
    let z = last_of x xs in
    let all = t ∷ x ∷ xs in
    let q = root looped (x ∷ xs) in
    let h1 = with_prev h z (some t) in
    let h2 = with_next h1 t (some z) in
    let g = with_prev h2 t none in
    let s1 = Seg-last h q none (some t) x xs l.distinct l.chain in
    let s2 = Seg-update h1 q (some t) (x ∷ xs) t (record (h1 t) { next = some z }) out s1 in
    let s3 = Seg-update h2 q (some t) (x ∷ xs) t (record (h2 t) { prev = none }) out s2 in
    (
      g,
      ap (λ n. record { chars = g; head = some x; tail = some n }) (sym (last_of-snoc x xs t)),
      record {
        chain =
            subst (λ r. Seg g r (x ∷ xs ++ t ∷ []) none) (root-append looped x xs (t ∷ []))
              (Seg-append g q none (x ∷ xs) (t ∷ []) s3 (
                next-with_prev h2 t none t ∙ next-with_next h1 t (some z),
                prev-with_prev h2 t none,
                tt,
              ));
        distinct = Distinct-snoc (x ∷ xs) t l.distinct out;
        some_cell = λ _ e. cc;
      },
      Relinked-trans all h (Relinked-with_prev all h z (some t) (ground (arith, last_of-mem x xs)))
          (Relinked-trans all h1 (Relinked-with_next all h1 t (some z) (ground arith))
            (Relinked-with_prev all h2 t none (ground arith))),
    )

-- The only cell of a list is put at its end once more: it is its own older neighbour.
pub emplace_back-twice :
    (h : Chars) (t : ℕ)
    → (g : Chars) × (emplace_back t (linked h (t ∷ [])) ≡ linked g (t ∷ []))
      × IsLinked true g (t ∷ [])
      × Relinked (t ∷ t ∷ []) h g
unfolding emplace_back
emplace_back-twice h t =
    let all = t ∷ t ∷ [] in
    let h1 = with_prev h t (some t) in
    let h2 = with_next h1 t (some t) in
    let g = with_prev h2 t none in
    (
      g,
      refl,
      record {
        chain = (
          next-with_prev h2 t none t ∙ next-with_next h1 t (some t),
          prev-with_prev h2 t none,
          tt,
        );
        distinct = (refl, tt);
        some_cell = λ _ e. cc;
      },
      Relinked-trans all h (Relinked-with_prev all h t (some t) (ground arith)) (
          Relinked-trans all h1 (Relinked-with_next all h1 t (some t) (ground arith))
            (Relinked-with_prev all h2 t none (ground arith))),
    )

last_of-append :
    (w : ℕ) (xs : List ℕ) (y : ℕ) (ys : List ℕ) → last_of w (xs ++ y ∷ ys) ≡ last_of y ys
last_of-append w [] y ys = refl
last_of-append w (x ∷ xs) y ys = last_of-append x xs y ys

unlink_inner-between :
    (m : Mem) (t z y : ℕ)
    → (m.chars t).next ≡ some z
    → (m.chars t).prev ≡ some y
    → (t == z) ≡ false
    → unlink_inner t m ≡ some (some t, set_next y (some z) (set_prev z (some y) m))
unlink_inner-between m t z y n p e =
    rw (n, p, update_ne m.chars z t (record (m.chars z) { prev = some y }) e, p, n)

-- The oldest cell takes its loop with it.
abbrev pub stays : Bool → List ℕ → Bool
stays looped [] = false
stays looped (x ∷ xs) = looped

-- `pop` unlinks a cell that is not the youngest, and returns it.
pub pop-linked :
    (looped : Bool) (h : Chars) (l : List ℕ) (t y : ℕ) (r : List ℕ)
    → IsLinked looped h (l ++ t ∷ y ∷ r)
    → (g : Chars) × (pop t (linked h (l ++ t ∷ y ∷ r)) ≡ some (some t, linked g (l ++ y ∷ r)))
      × IsLinked (stays looped l) g (l ++ y ∷ r)
      × Relinked (l ++ y ∷ r) h g
unfolding pop
pop-linked looped h [] t y r k = (
  with_next h y none,
  rw (==_refl t, k.chain.1),
  record {
    chain = Seg-first h (some t) none none y r k.distinct.1.0 k.chain.2;
    distinct = k.distinct.1;
    some_cell = λ _ e. cc;
  },
  Relinked-with_next (y ∷ r) h y none (ground arith),
)
pop-linked looped h (w ∷ l) t y r k =
    let q = root looped (w ∷ l ++ t ∷ y ∷ r) in
    let (front, (n, p, back)) = Seg-split h q none (w ∷ l) (t ∷ y ∷ r) k.chain in
    let (dl, (tout, dr), apart) = Distinct-split (w ∷ l) (t ∷ y ∷ r) k.distinct in
    let z = last_of w l in
    let zin = last_of-mem w l in
    let tout' = apart_sym (w ∷ l) (t ∷ y ∷ r) apart t (mem_self t (y ∷ r)) in
    let yout = apart_sym (w ∷ l) (t ∷ y ∷ r) apart y (mem_cons y t (y ∷ r) (mem_self y r)) in
    let wt = ==_of_mem w t (t ∷ y ∷ r) (apart w (mem_self w l)) (mem_self t (y ∷ r)) in
    let lt = ==_of_mem_right (last_of y r) t (y ∷ r) (last_of-mem y r) tout in
    let h1 = with_prev h z (some y) in
    let g = with_next h1 y (some z) in
    let zout = not-mem-tail z t (y ∷ r) (apart z zin) in
    let front1 = Seg-last h q (some t) (some y) w l dl front in
    let back1 = Seg-update h (some t) none (y ∷ r) z (record (h z) { prev = some y }) zout back in
    let all = w ∷ l ++ y ∷ r in
    (
      g,
      rw (
        wt,
        last_of-append w l t (y ∷ r),
        lt,
        last_of-append w l y r,
        unlink_inner-between (record { chars = h; head = some w; tail = some (last_of y r) }) t z y
            n p (==_of_mem t z (w ∷ l) tout' zin),
      ),
      record {
        chain =
            subst (λ o. Seg g o all none)
              (sym (root-append looped w l (t ∷ y ∷ r)) ∙ root-append looped w l (y ∷ r))
              (Seg-append g q none (w ∷ l) (y ∷ r)
                (Seg-update h1 q (some y) (w ∷ l) y (record (h1 y) { next = some z }) yout front1)
                (Seg-first h1 (some t) none (some z) y r dr.0 back1));
        distinct = (Distinct-remove (w ∷ l) t (y ∷ r) k.distinct).0;
        some_cell = λ _ e. cc;
      },
      Relinked-trans all h (Relinked-with_prev all h z (some y) (mem_left z (w ∷ l) (y ∷ r) zin))
          (Relinked-with_next all h1 y (some z) (mem_right y (w ∷ l) (y ∷ r) (mem_self y r))),
    )
