-- ===== src/Window/Dll.antt =====
-- The cells of `List<A>` as a doubly linked list: `next` leads to the older neighbour, `prev` to
-- the younger one, `head` is the oldest cell and `tail` the youngest.
use vcpkg_test.Prelude.{
  ℕ, ◌≡◌, ◌∙◌, refl, Option, some, List, [], ◌∷◌, ◌++◌, true, false, arith, ◌==◌, mem, Distinct,
  ==_of_mem, ==_refl,
}
use vcpkg_test.Window.{A, Chars, update, with_next, with_prev}

pub update_self : (h : Chars) (p : ℕ) (a : A) → update h p a p ≡ a
unfolding update
update_self h p a = rw (==_refl p)

pub update_ne : (h : Chars) (p q : ℕ) (a : A) → (q == p) ≡ false → update h p a q ≡ h q
unfolding update
update_ne h p q a e = rw e

module _ (h : Chars) (p : ℕ) (v : Option ℕ) where
  pub next-with_next : (with_next h p v p).next ≡ v
  unfolding update
  next-with_next = ground arith

  pub prev-with_prev : (with_prev h p v p).prev ≡ v
  unfolding update
  prev-with_prev = ground arith

  pub next-with_prev : (q : ℕ) → (with_prev h p v q).next ≡ (h q).next
  unfolding update
  next-with_prev q = ground arith

-- `g` differs from `h` at most in the links of the cells `xs`.
pub record Relinked (xs : List ℕ) (h g : Chars) : Type 0 where
  pub same_pos : (a : ℕ) → (g a).pos ≡ (h a).pos
  pub outside : (a : ℕ) → mem a xs ≡ false → g a ≡ h a

module _ (xs : List ℕ) (h : Chars) where
  pub Relinked-with_next :
      (p : ℕ) (v : Option ℕ) → mem p xs ≡ true → Relinked xs h (with_next h p v)
  Relinked-with_next p v i = record {
    same_pos = unfold update in (λ a. ground arith);
    outside = λ a o. update_ne h p a _ (==_of_mem a p xs o i);
  }

  pub Relinked-with_prev :
      (p : ℕ) (v : Option ℕ) → mem p xs ≡ true → Relinked xs h (with_prev h p v)
  Relinked-with_prev p v i = record {
    same_pos = unfold update in (λ a. ground arith);
    outside = λ a o. update_ne h p a _ (==_of_mem a p xs o i);
  }

  pub Relinked-trans : {g k : Chars} → Relinked xs h g → Relinked xs g k → Relinked xs h k
  Relinked-trans r s = record {
    same_pos = λ a. s.same_pos a ∙ r.same_pos a;
    outside = λ a o. s.outside a o ∙ r.outside a o;
  }

pub Relinked-mono :
    {h g : Chars} (xs ys : List ℕ)
    → ((a : ℕ) → mem a ys ≡ false → mem a xs ≡ false)
    → Relinked xs h g
    → Relinked ys h g
Relinked-mono xs ys sub r = record { same_pos = r.same_pos; outside = λ a o. r.outside a (sub a o) }

-- The oldest of the cells `xs`, or `right` if there is none.
abbrev pub first : List ℕ → Option ℕ → Option ℕ
first [] right = right
first (x ∷ xs) right = some x

abbrev pub last_of : ℕ → List ℕ → ℕ
last_of x [] = x
last_of x (y ∷ ys) = last_of y ys

-- The youngest of the cells `xs`, or `left` if there is none.
abbrev pub last : Option ℕ → List ℕ → Option ℕ
last left [] = left
last left (x ∷ xs) = some (last_of x xs)

-- The cells `xs`, oldest first, are linked to one another, to `left` and to `right`.
abbrev pub Seg : Chars → Option ℕ → List ℕ → Option ℕ → Type 0
Seg h left [] right = Unit
Seg h left (x ∷ xs) right =
    ((h x).next ≡ left) × ((h x).prev ≡ first xs right) × Seg h (some x) xs right

pub last_of-mem : (x : ℕ) (xs : List ℕ) → mem (last_of x xs) (x ∷ xs) ≡ true
last_of-mem x [] = ground arith
last_of-mem x (y ∷ ys) = ground (arith, last_of-mem y ys)

last-some : (x : ℕ) (xs : List ℕ) → last (some x) xs ≡ some (last_of x xs)
last-some x [] = refl
last-some x (y ∷ ys) = refl

first-append :
    (xs ys : List ℕ) (right : Option ℕ) → first (xs ++ ys) right ≡ first xs (first ys right)
first-append [] ys right = refl
first-append (x ∷ xs) ys right = refl

module _ (h : Chars) where
  pub Seg-append :
      (left right : Option ℕ) (xs ys : List ℕ)
      → Seg h left xs (first ys right)
      → Seg h (last left xs) ys right
      → Seg h left (xs ++ ys) right
  Seg-append left right [] ys s t = t
  Seg-append left right (x ∷ xs) ys (n, p, s) t =
      (n, rw first-append p, Seg-append (some x) right xs ys s (rw last-some t))

  pub Seg-split :
      (left right : Option ℕ) (xs ys : List ℕ)
      → Seg h left (xs ++ ys) right
      → Seg h left xs (first ys right) × Seg h (last left xs) ys right
  Seg-split left right [] ys s = (tt, s)
  Seg-split left right (x ∷ xs) ys (n, p, s) =
      let (a, b) = Seg-split (some x) right xs ys s in
      ((n, rw first-append at p, a), rw last-some at b)

  -- A write to a cell elsewhere leaves the links alone.
  pub Seg-update :
      (left right : Option ℕ) (xs : List ℕ) (q : ℕ) (a : A)
      → mem q xs ≡ false
      → Seg h left xs right
      → Seg (update h q a) left xs right
  unfolding update
  Seg-update left right [] q a out s = tt
  Seg-update left right (x ∷ xs) q a out (n, p, s) =
      (ground arith, ground arith, Seg-update (some x) right xs q a (ground arith) s)

  -- A new older neighbour for the oldest cell.
  pub Seg-first :
      (left right left' : Option ℕ) (y : ℕ) (ys : List ℕ)
      → mem y ys ≡ false
      → Seg h left (y ∷ ys) right
      → Seg (with_next h y left') left' (y ∷ ys) right
  Seg-first left right left' y ys out (n, p, s) = (
    unfold update in ground arith,
    unfold update in ground arith,
    Seg-update (some y) right ys y _ out s,
  )

  -- A new younger neighbour for the youngest cell.
  pub Seg-last :
      (left right right' : Option ℕ) (x : ℕ) (xs : List ℕ)
      → Distinct (x ∷ xs)
      → Seg h left (x ∷ xs) right
      → Seg (with_prev h (last_of x xs) right') left (x ∷ xs) right'
  Seg-last left right right' x [] d (n, p, s) =
      (unfold update in ground arith, unfold update in ground arith, tt)
  Seg-last left right right' x (y ∷ ys) (out, d) (n, p, s) =
      let elsewhere =
        let z = last_of y ys in
        update_ne h z x (record (h z) { prev = right' })
          (==_of_mem x z (y ∷ ys) out (last_of-mem y ys)) in
      (rw elsewhere n, rw elsewhere p, Seg-last (some x) right right' y ys d s)
