-- ===== src/Base/Sorting.antt =====
-- `Array.sort` of the source language, which is stable, and the element that comes first.
use Prim.Native.Nat.{ℕ, ◌≤◌}
use mathlib.Core.Path.{◌≡◌, refl, sym, subst}
use mathlib.Core.Logic.{◌⊎◌, inl, inr}
use mathlib.Core.Bool.{Bool, true, false}
use mathlib.Core.Option.{none, some}
use mathlib.Core.List.{List, [], ◌∷◌, Memᴰ, head?}
use native.Mathlib.Omega.{arith}
use able_work.Base.Tests.{leb, leb→le, if◌then◌else◌, Bool-cases, Option-cases}
use able_work.Base.Lists.{All, All-get, All-of_get}

Memᴰ_cons_cases {ℓ κ} :
    {A : Type ℓ} {B : Type κ} {a x : A} {xs : List A}
    → Memᴰ a (x ∷ xs)
    → (a ≡ x → B)
    → (Memᴰ a xs → B)
    → B
Memᴰ_cons_cases (Memᴰ.head e) f g = f e
Memᴰ_cons_cases (Memᴰ.tail m) f g = g m

module _ {ℓ} {A : Type ℓ} (before : A → A → Bool) where
  -- `x` stood before the elements of the list, so it stays before those that are equal to it.
  unfoldable pub insert_sorted : A → List A → List A
  insert_sorted x [] = x ∷ []
  insert_sorted x (y ∷ ys) =
      let rest = insert_sorted x ys in if before x y then x ∷ y ∷ ys else y ∷ rest

  -- `xs.sort(cmp)`, where `before a b` is `cmp(a, b) <= 0`.
  unfoldable pub sort_by : List A → List A
  sort_by [] = []
  sort_by (x ∷ xs) = insert_sorted x (sort_by xs)

  mem-insert_sorted_if :
      (x y : A) (ys : List A) {a : A} (b : Bool)
      → Memᴰ a (if b then x ∷ y ∷ ys else y ∷ insert_sorted x ys)
      → (a ≡ x) ⊎ (a ≡ y) ⊎ Memᴰ a ys ⊎ Memᴰ a (insert_sorted x ys)
  mem-insert_sorted_if x y ys true (Memᴰ.head e) = inl e
  mem-insert_sorted_if x y ys true (Memᴰ.tail (Memᴰ.head e)) = inr (inl e)
  mem-insert_sorted_if x y ys true (Memᴰ.tail (Memᴰ.tail m)) = inr (inr (inl m))
  mem-insert_sorted_if x y ys false (Memᴰ.head e) = inr (inl e)
  mem-insert_sorted_if x y ys false (Memᴰ.tail m) = inr (inr (inr m))

  mem-insert_sorted :
      (x : A) (ys : List A) {a : A} → Memᴰ a (insert_sorted x ys) → (a ≡ x) ⊎ Memᴰ a ys
  unfolding insert_sorted
  mem-insert_sorted x [] (Memᴰ.head e) = inl e
  mem-insert_sorted x [] (Memᴰ.tail m) = elim m [ ]
  mem-insert_sorted x (y ∷ ys) m = elim (mem-insert_sorted_if x y ys (before x y) m) [
    | inl e ↦ inl e
    | inr (inl e) ↦ inr (Memᴰ.head e)
    | inr (inr (inl k)) ↦ inr (Memᴰ.tail k)
    | inr (inr (inr k)) ↦ elim (mem-insert_sorted x ys k) [
      | inl e ↦ inl e
      | inr j ↦ inr (Memᴰ.tail j)
    ]
  ]

  All-insert_sorted {κ} :
      (P : A → Type κ) (x : A) (ys : List A) → P x → All P ys → All P (insert_sorted x ys)
  unfolding insert_sorted
  All-insert_sorted P x [] hx hy = (hx, tt)
  All-insert_sorted P x (y ∷ ys) hx hy = elim (Bool-cases (before x y)) [
    | inl t ↦ rw t (hx, hy)
    | inr f ↦ rw f (hy.0, All-insert_sorted P x ys hx hy.1)
  ]

  pub All-sort_by {κ} : (P : A → Type κ) (xs : List A) → All P xs → All P (sort_by xs)
  unfolding sort_by
  All-sort_by P [] h = tt
  All-sort_by P (x ∷ xs) h = All-insert_sorted P x (sort_by xs) h.0 (All-sort_by P xs h.1)

  pub mem-of_sort_by : (xs : List A) {a : A} → Memᴰ a (sort_by xs) → Memᴰ a xs
  mem-of_sort_by xs m =
      All-get (λ x. Memᴰ x xs) (sort_by xs)
        (All-sort_by (λ x. Memᴰ x xs) xs (All-of_get (λ x. Memᴰ x xs) xs (λ a k. k))) m

  mem-insert_sorted_self : (x : A) (ys : List A) → Memᴰ x (insert_sorted x ys)
  unfolding insert_sorted
  mem-insert_sorted_self x [] = Memᴰ.head refl
  mem-insert_sorted_self x (y ∷ ys) = elim (Bool-cases (before x y)) [
    | inl t ↦ rw t (Memᴰ.head refl)
    | inr f ↦ rw f (Memᴰ.tail (mem-insert_sorted_self x ys))
  ]

  mem-insert_sorted_old : (x : A) (ys : List A) {a : A} → Memᴰ a ys → Memᴰ a (insert_sorted x ys)
  unfolding insert_sorted
  mem-insert_sorted_old x [] m = elim m [ ]
  mem-insert_sorted_old x (y ∷ ys) m = elim (Bool-cases (before x y)) [
    | inl t ↦ rw t (Memᴰ.tail m)
    | inr f ↦
        rw f (Memᴰ_cons_cases m (λ e. Memᴰ.head e) (λ k. Memᴰ.tail (mem-insert_sorted_old x ys k)))
  ]

  pub mem-sort_by : (xs : List A) {a : A} → Memᴰ a xs → Memᴰ a (sort_by xs)
  unfolding sort_by
  mem-sort_by [] m = elim m [ ]
  mem-sort_by (x ∷ xs) (Memᴰ.head e) =
      subst (λ y. Memᴰ y (insert_sorted x (sort_by xs))) (sym e)
        (mem-insert_sorted_self x (sort_by xs))
  mem-sort_by (x ∷ xs) (Memᴰ.tail m) = mem-insert_sorted_old x (sort_by xs) (mem-sort_by xs m)

  head-insert_sorted :
      (x : A) (ys : List A)
      → head? (insert_sorted x ys)
        ≡ (elim (head? ys) [ none ↦ some x | some y ↦ if before x y then some x else some y ])
  unfolding insert_sorted
  head-insert_sorted x [] = refl
  head-insert_sorted x (y ∷ ys) = ground arith

  pub nil_of_head-sort_by : (xs : List A) → head? (sort_by xs) ≡ none → xs ≡ []
  unfolding sort_by
  nil_of_head-sort_by [] h = refl
  nil_of_head-sort_by (x ∷ xs) h = ground (arith, head-insert_sorted x (sort_by xs))

  pub head-sort_by_mem : (xs : List A) {m : A} → head? (sort_by xs) ≡ some m → Memᴰ m xs
  head-sort_by_mem xs h = mem-of_sort_by xs (head-mem (sort_by xs) h)
    where
      head-mem : (ys : List A) {m : A} → head? ys ≡ some m → Memᴰ m ys
      head-mem [] e = cc
      head-mem (y ∷ ys) e = Memᴰ.head (cc)

  -- For a total order the first element after sorting stands before all the others.
  module _ (reflexive : (a : A) → before a a ≡ true)
      (total : (a b : A) → before a b ≡ false → before b a ≡ true)
      (transitive : (a b c : A) → before a b ≡ true → before b c ≡ true → before a c ≡ true) where
    All-before :
        (a b : A) (xs : List A)
        → before a b ≡ true
        → All (λ x. before b x ≡ true) xs
        → All (λ x. before a x ≡ true) xs
    All-before a b [] h k = tt
    All-before a b (x ∷ xs) h k = (transitive a b x h k.0, All-before a b xs h k.1)

    pub head-sort_by_first :
        (xs : List A) {m : A} → head? (sort_by xs) ≡ some m → All (λ x. before m x ≡ true) xs
    unfolding sort_by
    head-sort_by_first [] h = tt
    head-sort_by_first (x ∷ xs) {m} h = elim (Option-cases (head? (sort_by xs))) [
      | inl n ↦ rw (nil_of_head-sort_by xs n) (
        subst (λ z. before z x ≡ true) (ground (arith, head-insert_sorted x (sort_by xs)))
            (reflexive x),
        tt,
      )
      | inr (y, e) ↦ elim (Bool-cases (before x y)) [
        | inl t ↦
            subst (λ z. All (λ a. before z a ≡ true) (x ∷ xs))
              (ground (arith, head-insert_sorted x (sort_by xs)))
              (reflexive x, All-before x y xs t (head-sort_by_first xs e))
        | inr f ↦
            subst (λ z. All (λ a. before z a ≡ true) (x ∷ xs))
              (ground (arith, head-insert_sorted x (sort_by xs)))
              (total x y f, head-sort_by_first xs e)
      ]
    ]

-- The comparators `(a, b) => a.key - b.key` and `(a, b) => b.key - a.key`.
module _ {ℓ} {A : Type ℓ} (key : A → ℕ) where
  abbrev pub ascending : A → A → Bool
  ascending a b = leb (key a) (key b)

  abbrev pub descending : A → A → Bool
  descending a b = leb (key b) (key a)

  pub first_ascending :
      (xs : List A) {m : A}
      → head? (sort_by ascending xs) ≡ some m
      → Memᴰ m xs × All (λ x. key m ≤ key x) xs
  first_ascending xs {m} h = (
    head-sort_by_mem ascending xs h,
    All-of_get _ xs (λ a k. leb→le _ _ (
        All-get _ xs
          (head-sort_by_first ascending (λ a. ground arith) (λ a b e. ground arith)
            (λ a b c e f. ground arith) xs h)
          k)),
  )

  pub first_descending :
      (xs : List A) {m : A}
      → head? (sort_by descending xs) ≡ some m
      → Memᴰ m xs × All (λ x. key x ≤ key m) xs
  first_descending xs {m} h = (
    head-sort_by_mem descending xs h,
    All-of_get _ xs (λ a k. leb→le _ _ (
        All-get _ xs
          (head-sort_by_first descending (λ a. ground arith) (λ a b e. ground arith)
            (λ a b c e f. ground arith) xs h)
          k)),
  )
