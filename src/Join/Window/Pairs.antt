-- ===== src/Join/Window/Pairs.antt =====
-- The pairs of two lists of pointers that pass a test, as an abstract view of what a window joins.
use mathlib.Core.List.{Perm, Permᴰ, append-nil, append_assoc, perm_append_comm}
use mathlib.Core.List.Perm
use mathlib.Core.List.Permᴰ.{nil, cons, swap, trans}
use mathlib.Core.Logic.{∥∥₁_elim, ∥∥₁_map}
use mathlib.Core.Bool.{Bool-set}
use gress.Common.{
  ℕ, ◌≡◌, refl, ap, ◌∙◌, sym, Bool, false, ◌||◌, ◌&&◌, List, [], ◌∷◌, ◌++◌, ◌==◌, ==_iff,
  if◌then◌else◌, map, arith,
}

-- The middle two of four lists change places.
pub perm_exchange :
    {A : Type 0} (a b c d : List A) → Perm ((a ++ b) ++ (c ++ d)) ((a ++ c) ++ (b ++ d))
perm_exchange a b c d = rw (append_assoc a b (c ++ d)) (
    rw (append_assoc a c (b ++ d)) (
      Perm.append_left a (
        rw⁻¹ (append_assoc b c d)
          (rw⁻¹ (append_assoc c b d) (Perm.append_right d (perm_append_comm b c))))))

map-Permᴰ : {A B : Type 0} (f : A → B) {xs ys : List A} → Permᴰ xs ys → Permᴰ (map f xs) (map f ys)
map-Permᴰ f nil = nil
map-Permᴰ f (cons e p) = cons (ap f e) (map-Permᴰ f p)
map-Permᴰ f (swap e g) = swap (ap f e) (ap f g)
map-Permᴰ f (trans p q) = trans (map-Permᴰ f p) (map-Permᴰ f q)

pub map-Perm : {A B : Type 0} (f : A → B) {xs ys : List A} → Perm xs ys → Perm (map f xs) (map f ys)
map-Perm f {xs} {ys} p = ∥∥₁_map {B = Permᴰ (map f xs) (map f ys)} p (λ d. map-Permᴰ f d)

-- Does some element pass the test?
abbrev pub some_of : {A : Type 0} → (A → Bool) → List A → Bool
some_of test [] = false
some_of test (x ∷ xs) = test x || some_of test xs

some_of-Permᴰ :
    {A : Type 0} (test : A → Bool) {xs ys : List A}
    → Permᴰ xs ys
    → some_of test xs ≡ some_of test ys
some_of-Permᴰ test nil = refl
some_of-Permᴰ test (cons {b = y} {l₁ = xs} e p) =
    ap (λ a. test a || some_of test xs) e ∙ ap (λ b. test y || b) (some_of-Permᴰ test p)
some_of-Permᴰ test (swap {a = a} {b = b} {l = l} e f) = rw⁻¹ e (rw⁻¹ f (ground arith))
some_of-Permᴰ test (trans p q) = some_of-Permᴰ test p ∙ some_of-Permᴰ test q

pub some_of-Perm :
    {A : Type 0} (test : A → Bool) {xs ys : List A} → Perm xs ys → some_of test xs ≡ some_of test ys
some_of-Perm test {xs} {ys} p = ∥∥₁_elim p (Bool-set _ _) (λ d. some_of-Permᴰ test d)

pub some_of-append :
    {A : Type 0} (test : A → Bool) (xs ys : List A)
    → some_of test (xs ++ ys) ≡ (some_of test xs || some_of test ys)
some_of-append test [] ys = refl
some_of-append test (x ∷ xs) ys = ground (arith, some_of-append test xs ys)

abbrev pub starts_with : ℕ → ℕ × ℕ → Bool
starts_with p pair = pair.0 == p

abbrev pub ends_with : ℕ → ℕ × ℕ → Bool
ends_with p pair = pair.1 == p

module _ (test : ℕ → ℕ → Bool) where
  -- The pairs of a left pointer, and of a right pointer.
  abbrev pub partners : ℕ → List ℕ → List (ℕ × ℕ)
  partners l [] = []
  partners l (r ∷ rights) = let rest = partners l rights in if test l r then (l, r) ∷ rest else rest

  abbrev pub partners_of : List ℕ → ℕ → List (ℕ × ℕ)
  partners_of [] r = []
  partners_of (l ∷ lefts) r =
      let rest = partners_of lefts r in if test l r then (l, r) ∷ rest else rest

  abbrev pub all_pairs : List ℕ → List ℕ → List (ℕ × ℕ)
  all_pairs [] rights = []
  all_pairs (l ∷ lefts) rights = partners l rights ++ all_pairs lefts rights

  pub all_pairs-left :
      (lefts rights : List ℕ) (l : ℕ)
      → all_pairs (lefts ++ l ∷ []) rights ≡ all_pairs lefts rights ++ partners l rights
  all_pairs-left [] rights l = append-nil (partners l rights)
  all_pairs-left (x ∷ lefts) rights l =
      ap (λ ps. partners x rights ++ ps) (all_pairs-left lefts rights l)
      ∙ sym (append_assoc (partners x rights) (all_pairs lefts rights) (partners l rights))

  partners-append :
      (l : ℕ) (xs ys : List ℕ) → partners l (xs ++ ys) ≡ partners l xs ++ partners l ys
  partners-append l [] ys = refl
  partners-append l (x ∷ xs) ys = ground (arith, partners-append l xs ys)

  partners_of-cons :
      (l r : ℕ) (lefts : List ℕ)
      → partners_of (l ∷ lefts) r ≡ partners l (r ∷ []) ++ partners_of lefts r
  partners_of-cons l r lefts = ground arith

  pub all_pairs-right :
      (lefts rights : List ℕ) (r : ℕ)
      → Perm (all_pairs lefts (rights ++ r ∷ [])) (all_pairs lefts rights ++ partners_of lefts r)
  all_pairs-right [] rights r = Perm.nil
  all_pairs-right (l ∷ lefts) rights r = rw (partners-append l rights (r ∷ [])) (
      rw (partners_of-cons l r lefts) (
        Perm.trans
          (Perm.append_left (partners l rights ++ partners l (r ∷ []))
            (all_pairs-right lefts rights r))
          (perm_exchange (partners l rights) (partners l (r ∷ [])) (all_pairs lefts rights)
            (partners_of lefts r))))

  -- Does the pointer pass the test with some pointer of the other side?
  abbrev pub has_right : List ℕ → ℕ → Bool
  has_right rights l = some_of (test l) rights

  abbrev pub has_left : List ℕ → ℕ → Bool
  has_left lefts r = some_of (λ l. test l r) lefts

  starts_with-partners :
      (p l : ℕ) (rights : List ℕ)
      → some_of (starts_with p) (partners l rights) ≡ (l == p && has_right rights p)
  starts_with-partners p l [] = ground arith
  starts_with-partners p l (r ∷ rights) =
      ground (arith, starts_with-partners p l rights, ==_iff l p)

  pub starts_with-all_pairs :
      (p : ℕ) (lefts rights : List ℕ)
      → some_of (starts_with p) (all_pairs lefts rights)
        ≡ (some_of (λ l. l == p) lefts && has_right rights p)
  starts_with-all_pairs p [] rights = refl
  starts_with-all_pairs p (l ∷ lefts) rights =
      some_of-append (starts_with p) (partners l rights) (all_pairs lefts rights)
      ∙ ground (arith, starts_with-partners p l rights, starts_with-all_pairs p lefts rights)

  ends_with-partners :
      (p l : ℕ) (rights : List ℕ)
      → some_of (ends_with p) (partners l rights) ≡ (some_of (λ r. r == p) rights && test l p)
  ends_with-partners p l [] = refl
  ends_with-partners p l (r ∷ rights) = ground (arith, ends_with-partners p l rights, ==_iff r p)

  pub ends_with-all_pairs :
      (p : ℕ) (lefts rights : List ℕ)
      → some_of (ends_with p) (all_pairs lefts rights)
        ≡ (some_of (λ r. r == p) rights && has_left lefts p)
  ends_with-all_pairs p [] rights = ground arith
  ends_with-all_pairs p (l ∷ lefts) rights =
      some_of-append (ends_with p) (partners l rights) (all_pairs lefts rights)
      ∙ ground (arith, ends_with-partners p l rights, ends_with-all_pairs p lefts rights)
