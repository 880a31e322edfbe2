-- ===== src/Window/Touch.antt =====
-- What a hit in `min_win` of src/min_char_window.cpp does to the list.
use vcpkg_test.Prelude.{
  ℕ, ◌+◌, ◌<◌, ◌≤◌, Bool, true, ◌^◌, ◌%◌, ◌≡◌, ◌≢◌, ◌∙◌, sym, ap, refl, none, some, List, [], ◌∷◌,
  ◌++◌, false, arith, mem, length, length-append, Bool-cases, inl, inr, append-nil, Distinct-remove,
  mem_self, mem_right, not-mem-tail, not-mem-remove, not-mem-keep, subst,
}
use vcpkg_test.Window.{Chars, insert_new, move_old}
use vcpkg_test.Window.Dll.{last_of, Seg-split, Relinked, Relinked-mono, Relinked-trans}
use vcpkg_test.Window.Links.{
  linked, IsLinked, root, stays, emplace_back-linked, emplace_back-twice, pop-linked,
}
use vcpkg_test.Window.Order.{
  touch, erase_split, touch_split, touch_lem, length-touch_new, length-touch_old,
}
use vcpkg_test.Window.Moves.{
  counted, IsIdle, move_old_youngest, move_old_older, insert_new_idle, insert_new_older,
  insert_new_youngest,
}

-- A hit made its cell the youngest; the list is no more looped than before, and no more counted.
pub record Touched (looped : Bool) (h : Chars) (c : ℕ) (order : List ℕ) (n d b : ℕ) : Type 0 where
  pub loops : Bool
  pub cells : Chars
  pub size : ℕ
  pub moved :
      move_old c (insert_new c (counted h order n d b))
      ≡ some (counted cells (touch c order) size d b)
  pub is_linked : IsLinked loops cells (touch c order)
  pub relinked : Relinked (c ∷ order) h cells
  pub no_loop : looped ≡ false → loops ≡ false
  pub count : size + length order ≡ n + length (touch c order)
  pub unlooped : looped ≡ true → loops ≡ false → 2 ≤ length order

touch_new :
    (looped : Bool) (h : Chars) (c : ℕ) (order : List ℕ) (n d b : ℕ)
    → IsLinked looped h order
    → mem c order ≡ false
    → IsIdle h c
    → n + 1 < 2 ^ 64
    → Touched looped h c order n d b
touch_new looped h c order n d b k out idle small =
    let (g, e, k', r) = emplace_back-linked looped h c order k out in
    let (_, (_, p, _)) = Seg-split g (root looped (order ++ c ∷ [])) none order (c ∷ []) k'.chain in
    let t = touch_lem c order out in
    let fits : (n + 1) % 2 ^ 64 ≡ n + 1 = omega arith in
    let inserted : insert_new c (counted h order n d b) ≡ counted g (order ++ c ∷ []) (n + 1) d b =
      insert_new_idle c (counted h order n d b) idle
      ∙ (λ i. record { mem = e i; size = fits i; min_distance = d; best = b }) in
    record {
      loops = looped;
      cells = g;
      size = n + 1;
      moved =
          ap (move_old c) inserted
          ∙ move_old_youngest c (counted g (order ++ c ∷ []) (n + 1) d b) p
          ∙ ap (λ o. some (counted g o (n + 1) d b)) (sym t);
      is_linked = rw t k';
      relinked = r;
      no_loop = λ e. e;
      count = omega (arith, length-touch_new c order out);
      unlooped = λ e f. absurd (cc (e, f));
    }

touch_youngest :
    (looped : Bool) (h : Chars) (c x : ℕ) (l : List ℕ) (n d b : ℕ)
    → IsLinked looped h (x ∷ l ++ c ∷ [])
    → length (x ∷ l ++ c ∷ []) ≤ n
    → Touched looped h c (x ∷ l ++ c ∷ []) n d b
touch_youngest looped h c x l n d b k some_size =
    let order = x ∷ l ++ c ∷ [] in
    let s = counted h order n d b in
    let (_, (q, p, _)) = Seg-split h (root looped order) none (x ∷ l) (c ∷ []) k.chain in
    let (_, out) = Distinct-remove (x ∷ l) c [] k.distinct in
    let t = touch_split c (x ∷ l) [] out ∙ ap (λ xs. xs ++ c ∷ []) (append-nil (x ∷ l)) in
    let unchanged : insert_new c s ≡ s = insert_new_youngest c s (last_of x l) (omega arith) q in
    record {
      loops = looped;
      cells = h;
      size = n;
      moved =
          ap (move_old c) unchanged
          ∙ move_old_youngest c s p
          ∙ ap (λ o. some (counted h o n d b)) (sym t);
      is_linked = subst (IsLinked looped h) (sym t) k;
      relinked = record { same_pos = λ a. refl; outside = λ a o. refl };
      no_loop = λ e. e;
      count = omega (arith, ap length t);
      unlooped = λ e f. omega (arith, length-append l (c ∷ []));
    }

-- The list is one looped cell.
touch_looped :
    (h : Chars) (c n d b : ℕ)
    → IsLinked true h (c ∷ [])
    → length (c ∷ []) ≤ n
    → Touched true h c (c ∷ []) n d b
touch_looped h c n d b k some_size =
    let s = counted h (c ∷ []) n d b in
    let (q, p, _) = k.chain in
    let t = touch_split c [] [] refl in
    let unchanged : insert_new c s ≡ s = insert_new_youngest c s c (omega arith) q in
    record {
      loops = true;
      cells = h;
      size = n;
      moved =
          ap (move_old c) unchanged
          ∙ move_old_youngest c s p
          ∙ ap (λ o. some (counted h o n d b)) (sym t);
      is_linked = subst (IsLinked true h) (sym t) k;
      relinked = record { same_pos = λ a. refl; outside = λ a o. refl };
      no_loop = λ e. e;
      count = omega (arith, ap length t);
      unlooped = λ e f. absurd (cc (f));
    }

-- The list is one cell that is not looped: the hit puts it at the end once more.
pub touch_twice :
    (h : Chars) (c n d b : ℕ)
    → IsLinked false h (c ∷ [])
    → n + 1 < 2 ^ 64
    → (g : Chars) × (move_old c (insert_new c (counted h (c ∷ []) n d b))
        ≡ some (counted g (touch c (c ∷ [])) (n + 1) d b))
      × IsLinked true g (touch c (c ∷ []))
      × Relinked (c ∷ c ∷ []) h g
touch_twice h c n d b k small =
    let (g, e, k', r) = emplace_back-twice h c in
    let t = touch_split c [] [] refl in
    let fits : (n + 1) % 2 ^ 64 ≡ n + 1 = omega arith in
    let idle : IsIdle h c = record { next_none = k.chain.0; prev_none = k.chain.1 } in
    let inserted : insert_new c (counted h (c ∷ []) n d b) ≡ counted g (c ∷ []) (n + 1) d b =
      insert_new_idle c (counted h (c ∷ []) n d b) idle
      ∙ (λ i. record { mem = e i; size = fits i; min_distance = d; best = b }) in
    (
      g,
      ap (move_old c) inserted
          ∙ move_old_youngest c (counted g (c ∷ []) (n + 1) d b) k'.chain.1
          ∙ ap (λ o. some (counted g o (n + 1) d b)) (sym t),
      subst (IsLinked true g) (sym t) k',
      r,
    )

stays-no_loop : (looped : Bool) (l : List ℕ) → looped ≡ false → stays looped l ≡ false
stays-no_loop looped [] e = refl
stays-no_loop looped (x ∷ l) e = e

touch_older :
    (looped : Bool) (h : Chars) (c y : ℕ) (l r : List ℕ) (n d b : ℕ)
    → IsLinked looped h (l ++ c ∷ y ∷ r)
    → length (l ++ c ∷ y ∷ r) ≤ n
    → Touched looped h c (l ++ c ∷ y ∷ r) n d b
touch_older looped h c y l r n d b k some_size =
    let order = l ++ c ∷ y ∷ r in
    let s = counted h order n d b in
    let (g1, e1, k1, r1) = pop-linked looped h l c y r k in
    let (_, out) = Distinct-remove l c (y ∷ r) k.distinct in
    let (g, e, k', r') = emplace_back-linked (stays looped l) g1 c (l ++ y ∷ r) k1 out in
    let (_, (_, p, _)) = Seg-split h (root looped order) none l (c ∷ y ∷ r) k.chain in
    let t = touch_split c l (y ∷ r) out in
    let unchanged : insert_new c s ≡ s =
      insert_new_older c s y (omega (arith, length-append l (c ∷ y ∷ r))) p in
    let moved : linked g ((l ++ y ∷ r) ++ c ∷ []) ≡ linked g (touch c order) =
      ap (linked g) (sym t) in
    let fewer = λ (a : ℕ) (o : mem a (c ∷ order) ≡ false).
      not-mem-remove a l c (y ∷ r) (not-mem-tail a c order o) in
    record {
      loops = stays looped l;
      cells = g;
      size = n;
      moved =
          ap (move_old c) unchanged
          ∙ move_old_older c s y (linked g1 (l ++ y ∷ r)) p e1
          ∙ (λ i. some (record { mem = (e ∙ moved) i; size = n; min_distance = d; best = b }));
      is_linked = subst (IsLinked (stays looped l) g) (sym t) k';
      relinked = Relinked-trans (c ∷ order) h (Relinked-mono (l ++ y ∷ r) (c ∷ order) fewer r1) (
          Relinked-mono (c ∷ l ++ y ∷ r) (c ∷ order)
            (λ a o. not-mem-keep a c order (l ++ y ∷ r) o (fewer a o)) r');
      no_loop = stays-no_loop looped l;
      count =
          omega (arith, length-touch_old c order (mem_right c l (c ∷ y ∷ r) (mem_self c (y ∷ r))));
      unlooped = λ e f. omega (arith, length-append l (c ∷ y ∷ r));
    }

-- A hit makes its cell the youngest, unless that cell is the whole list and not looped.
pub touch_linked :
    (looped : Bool) (h : Chars) (c : ℕ) (order : List ℕ) (n d b : ℕ)
    → IsLinked looped h order
    → (mem c order ≡ false → IsIdle h c)
    → (looped ≡ false → order ≢ c ∷ [])
    → length order ≤ n
    → n + 1 < 2 ^ 64
    → Touched looped h c order n d b
touch_linked looped h c order n d b k idle more some_size small = elim (Bool-cases (mem c order)) [
  | inr out ↦ touch_new looped h c order n d b k out (idle out) small
  | inl old ↦
      let (l, r, e, _) = erase_split c order old in
      subst (λ o. Touched looped h c o n d b) (sym e)
        (at looped l r (subst (IsLinked looped h) e k) (λ q. subst (λ o. o ≢ c ∷ []) e (more q))
          (subst (λ o. length o ≤ n) e some_size))
]
  where
    at :
        (looped : Bool) (l r : List ℕ)
        → IsLinked looped h (l ++ c ∷ r)
        → (looped ≡ false → l ++ c ∷ r ≢ c ∷ [])
        → length (l ++ c ∷ r) ≤ n
        → Touched looped h c (l ++ c ∷ r) n d b
    at false [] [] k' m long = absurd (m refl refl)
    at true [] [] k' m long = touch_looped h c n d b k' long
    at looped (x ∷ l) [] k' m long = touch_youngest looped h c x l n d b k' long
    at looped l (y ∷ r) k' m long = touch_older looped h c y l r n d b k' long
