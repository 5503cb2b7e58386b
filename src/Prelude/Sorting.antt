-- ===== src/Prelude/Sorting.antt =====
-- `Array.prototype.sort` with a comparison function: the language requires a stable sort, so
-- every implementation gives the list that insertion gives. Of the number that a comparison
-- returns only the sign is read.
use Prim.Native.Nat.{ℕ, compare, Ordering}
use mathlib.Core.Path.{◌≡◌, refl}
use mathlib.Core.Logic.{◌≢◌}
use mathlib.Core.List.{List, [], ◌∷◌, Perm}
use mathlib.Core.List.Perm
use native.Mathlib.Omega.{arith}
use opengecko.Prelude.Lists.{All}

-- `if (first !== 0) return first; return second;`
abbrev pub then_by : Ordering → Ordering → Ordering
then_by Ordering.eq second = second
then_by Ordering.lt second = Ordering.lt
then_by Ordering.gt second = Ordering.gt

abbrev pub flip : Ordering → Ordering
flip Ordering.lt = Ordering.gt
flip Ordering.eq = Ordering.eq
flip Ordering.gt = Ordering.lt

-- A comparison that orders its values linearly, up to ties.
pub record IsComparison {ℓ} {A : Type ℓ} (cmp : A → A → Ordering) : Type ℓ where
  pub flipped : (a b : A) → cmp b a ≡ flip (cmp a b)
  pub trans : (a b c : A) → cmp a b ≢ Ordering.gt → cmp b c ≢ Ordering.gt → cmp a c ≢ Ordering.gt

module _ {ℓ} {A : Type ℓ} (cmp : A → A → Ordering) where
  -- `x` goes behind `y` only where it compares as greater.
  abbrev pub place : Ordering → A → A → List A → List A → List A
  place Ordering.gt x y ys later = y ∷ later
  place Ordering.lt x y ys later = x ∷ y ∷ ys
  place Ordering.eq x y ys later = x ∷ y ∷ ys

  unfoldable pub insert : A → List A → List A
  insert x [] = x ∷ []
  insert x (y ∷ ys) = place (cmp x y) x y ys (insert x ys)

  unfoldable pub sort : List A → List A
  unfolding insert
  sort [] = []
  sort (x ∷ xs) = insert x (sort xs)

  abbrev pub Sorted : List A → Type ℓ
  Sorted [] = Unit
  Sorted (x ∷ xs) = All (λ y. cmp x y ≢ Ordering.gt) xs × Sorted xs

  module _ {κ} (P : A → Type κ) where
    All-insert : (x : A) (ys : List A) → P x → All P ys → All P (insert x ys)
    unfolding insert
    All-insert x [] p a = (p, tt)
    All-insert x (y ∷ ys) p a = ground (arith, All-insert x ys p a.1)

    pub All-sort : (xs : List A) → All P xs → All P (sort xs)
    unfolding sort
    All-sort [] a = a
    All-sort (x ∷ xs) a = All-insert x (sort xs) a.0 (All-sort xs a.1)

    All-of_insert : (x : A) (ys : List A) → All P (insert x ys) → P x × All P ys
    unfolding insert
    All-of_insert x [] a = a
    All-of_insert x (y ∷ ys) a = ground (arith, All-of_insert x ys)

    pub All-of_sort : (xs : List A) → All P (sort xs) → All P xs
    unfolding sort
    All-of_sort [] a = a
    All-of_sort (x ∷ xs) a = let h = All-of_insert x (sort xs) a in (h.0, All-of_sort xs h.1)

  place-perm :
      (o : Ordering) (x y : A) (ys later : List A)
      → Perm later (x ∷ ys)
      → Perm (place o x y ys later) (x ∷ y ∷ ys)
  place-perm Ordering.gt x y ys later p = Perm.trans (Perm.cons y p) (Perm.swap x y ys)
  place-perm Ordering.lt x y ys later p = Perm.refl _
  place-perm Ordering.eq x y ys later p = Perm.refl _

  insert-perm : (x : A) (ys : List A) → Perm (insert x ys) (x ∷ ys)
  unfolding insert
  insert-perm x [] = Perm.refl (x ∷ [])
  insert-perm x (y ∷ ys) = place-perm (cmp x y) x y ys (insert x ys) (insert-perm x ys)

  pub sort-perm : (xs : List A) → Perm (sort xs) xs
  unfolding sort
  sort-perm [] = Perm.refl []
  sort-perm (x ∷ xs) = Perm.trans (insert-perm x (sort xs)) (Perm.cons x (sort-perm xs))

  module _ (law : IsComparison cmp) where
    le_first :
        (x y : A) (ys : List A)
        → cmp x y ≢ Ordering.gt
        → All (λ z. cmp y z ≢ Ordering.gt) ys
        → All (λ z. cmp x z ≢ Ordering.gt) ys
    le_first x y [] h a = tt
    le_first x y (z ∷ ys) h a = (law.trans x y z h a.0, le_first x y ys h a.1)

    place-Sorted :
        (o : Ordering) (x y : A) (ys later : List A)
        → cmp x y ≡ o
        → Sorted (y ∷ ys)
        → (cmp x y ≡ Ordering.gt → All (λ z. cmp y z ≢ Ordering.gt) later)
        → Sorted later
        → Sorted (place o x y ys later)
    place-Sorted Ordering.gt x y ys later e s a l = (a e, l)
    place-Sorted Ordering.lt x y ys later e s a l =
        ((ground arith, le_first x y ys (ground arith) s.0), s)
    place-Sorted Ordering.eq x y ys later e s a l =
        ((ground arith, le_first x y ys (ground arith) s.0), s)

    insert-Sorted : (x : A) (ys : List A) → Sorted ys → Sorted (insert x ys)
    unfolding insert
    insert-Sorted x [] s = (tt, tt)
    insert-Sorted x (y ∷ ys) s =
        place-Sorted (cmp x y) x y ys (insert x ys) refl s
          (λ e. All-insert (λ z. cmp y z ≢ Ordering.gt) x ys (ground (arith, law.flipped x y)) s.0)
          (insert-Sorted x ys s.1)

    pub sort-Sorted : (xs : List A) → Sorted (sort xs)
    unfolding sort
    sort-Sorted [] = tt
    sort-Sorted (x ∷ xs) = insert-Sorted x (sort xs) (sort-Sorted xs)

    -- Nothing in the list compares as less than the first of the sorted list.
    pub sort-first :
        (xs ys : List A) (x : A) → sort xs ≡ x ∷ ys → All (λ y. cmp x y ≢ Ordering.gt) xs
    sort-first xs ys x e =
        All-of_sort (λ y. cmp x y ≢ Ordering.gt) xs
          (rw e (ground (arith, law.flipped x x), (rw e at (sort-Sorted xs)).0))

pub compare-IsComparison {ℓ} : {A : Type ℓ} (f : A → ℕ) → IsComparison (λ a b. compare (f a) (f b))
compare-IsComparison f = record { flipped = λ a b. ground arith; trans = λ a b c h k. ground arith }

module _ {ℓ} {A : Type ℓ} (first second : A → A → Ordering) where
  pub then_by-IsComparison :
      IsComparison first
      → IsComparison second
      → IsComparison (λ a b. then_by (first a b) (second a b))
  then_by-IsComparison f s = record {
    flipped = λ a b. ground (arith, f.flipped a b, s.flipped a b);
    trans = λ a b c h k. ground (
      arith,
      f.flipped a b,
      f.flipped b c,
      f.flipped a c,
      f.trans a b c,
      f.trans b c a,
      f.trans c a b,
      s.trans a b c,
    );
  }

pub opposite-IsComparison {ℓ} :
    {A : Type ℓ} (cmp : A → A → Ordering) → IsComparison cmp → IsComparison (λ a b. cmp b a)
opposite-IsComparison cmp law = record {
  flipped = λ a b. law.flipped b a;
  trans = λ a b c h k. law.trans c b a k h;
}
