-- ===== src/Base/Lists.antt =====
-- Array methods of the source language on lists, and predicates over all elements of a list.
use Prim.Native.Nat.{ℕ, suc}
use mathlib.Core.Path.{◌≡◌, refl, sym, subst, ap}
use mathlib.Core.Logic.{◌⊎◌, inl, inr}
use mathlib.Core.Bool.{Bool, true, false, ◌||◌}
use mathlib.Core.Option.{Option, none, some}
use mathlib.Core.List.{List, [], ◌∷◌, ◌++◌, map, Memᴰ}
use native.Mathlib.Omega.{arith}
use able_work.Base.Tests.{Equality, ◌==◌, if◌then◌else◌, Bool-cases}

module _ {ℓ} {A : Type ℓ} where
  abbrev pub length : List A → ℕ
  length [] = 0
  length (x ∷ xs) = suc (length xs)

  abbrev pub filter : (A → Bool) → List A → List A
  filter p [] = []
  filter p (x ∷ xs) = let rest = filter p xs in if p x then x ∷ rest else rest

  abbrev pub find : (A → Bool) → List A → Option A
  find p [] = none
  find p (x ∷ xs) = if p x then some x else find p xs

  -- `xs.some(p)`
  abbrev pub any : (A → Bool) → List A → Bool
  any p [] = false
  any p (x ∷ xs) = p x || any p xs

  abbrev pub count : (A → Bool) → List A → ℕ
  count p [] = 0
  count p (x ∷ xs) = let rest = count p xs in if p x then suc rest else rest

  -- `xs.includes(a)`
  unfoldable pub includes : ⦃e : Equality A⦄ → List A → A → Bool
  includes [] a = false
  includes (x ∷ xs) a = a == x || includes xs a

  -- `Array.from(new Set(xs))`: the first of equal elements stays.
  unfoldable pub unique : ⦃e : Equality A⦄ → List A → List A
  unique [] = []
  unique (x ∷ xs) = x ∷ filter (λ y. if y == x then false else true) (unique xs)

  abbrev pub All {κ} : (A → Type κ) → List A → Type κ
  All P [] = Unit
  All P (x ∷ xs) = P x × All P xs

  pub All-get {κ} : (P : A → Type κ) (xs : List A) {a : A} → All P xs → Memᴰ a xs → P a
  All-get P [] h m = elim m [ ]
  All-get P (x ∷ xs) h (Memᴰ.head e) = subst P (sym e) h.0
  All-get P (x ∷ xs) h (Memᴰ.tail m) = All-get P xs h.1 m

  pub All-of_get {κ} : (P : A → Type κ) (xs : List A) → ((a : A) → Memᴰ a xs → P a) → All P xs
  All-of_get P [] h = tt
  All-of_get P (x ∷ xs) h = (h x (Memᴰ.head refl), All-of_get P xs (λ a m. h a (Memᴰ.tail m)))

  pub All-append {κ} : (P : A → Type κ) (xs ys : List A) → All P xs → All P ys → All P (xs ++ ys)
  All-append P [] ys nothing rest = rest
  All-append P (x ∷ xs) ys (first, others) rest = (first, All-append P xs ys others rest)

  pub mem-append_left : (xs ys : List A) {a : A} → Memᴰ a xs → Memᴰ a (xs ++ ys)
  mem-append_left [] ys m = elim m [ ]
  mem-append_left (x ∷ xs) ys (Memᴰ.head e) = Memᴰ.head e
  mem-append_left (x ∷ xs) ys (Memᴰ.tail m) = Memᴰ.tail (mem-append_left xs ys m)

  pub mem-append_right : (xs ys : List A) {a : A} → Memᴰ a ys → Memᴰ a (xs ++ ys)
  mem-append_right [] ys m = m
  mem-append_right (x ∷ xs) ys m = Memᴰ.tail (mem-append_right xs ys m)

  pub mem-append_cases : (xs ys : List A) {a : A} → Memᴰ a (xs ++ ys) → Memᴰ a xs ⊎ Memᴰ a ys
  mem-append_cases [] ys m = inr m
  mem-append_cases (x ∷ xs) ys (Memᴰ.head e) = inl (Memᴰ.head e)
  mem-append_cases (x ∷ xs) ys (Memᴰ.tail m) = elim (mem-append_cases xs ys m) [
    | inl l ↦ inl (Memᴰ.tail l)
    | inr r ↦ inr r
  ]

  -- What `filter` keeps, and that it keeps it.
  pub mem-filter_of :
      (p : A → Bool) (xs : List A) {a : A} → Memᴰ a xs → p a ≡ true → Memᴰ a (filter p xs)
  mem-filter_of p [] m h = elim m [ ]
  mem-filter_of p (x ∷ xs) (Memᴰ.head e) h = rw (subst (λ y. p y ≡ true) e h) (Memᴰ.head e)
  mem-filter_of p (x ∷ xs) (Memᴰ.tail m) h = elim (Bool-cases (p x)) [
    | inl y ↦ rw y (Memᴰ.tail (mem-filter_of p xs m h))
    | inr n ↦ rw n (mem-filter_of p xs m h)
  ]

  mem-filter_cons :
      (p : A → Bool) (x : A) (xs : List A) {a : A} (b : Bool)
      → p x ≡ b
      → Memᴰ a (if b then x ∷ filter p xs else filter p xs)
      → ((a ≡ x) × (p x ≡ true)) ⊎ Memᴰ a (filter p xs)
  mem-filter_cons p x xs true e (Memᴰ.head h) = inl (h, e)
  mem-filter_cons p x xs true e (Memᴰ.tail m) = inr m
  mem-filter_cons p x xs false e m = inr m

  pub mem-of_filter :
      (p : A → Bool) (xs : List A) {a : A} → Memᴰ a (filter p xs) → Memᴰ a xs × (p a ≡ true)
  mem-of_filter p [] m = elim m [ ]
  mem-of_filter p (x ∷ xs) m = elim (mem-filter_cons p x xs (p x) refl m) [
    | inl h ↦ (Memᴰ.head h.0, subst (λ y. p y ≡ true) (sym h.0) h.1)
    | inr r ↦ let (k, q) = mem-of_filter p xs r in (Memᴰ.tail k, q)
  ]

  pub find-mem :
      (p : A → Bool) (xs : List A) {a : A} → find p xs ≡ some a → Memᴰ a xs × (p a ≡ true)
  find-mem p [] h = cc
  find-mem p (x ∷ xs) h = elim (Bool-cases (p x)) [
    | inl y ↦ (Memᴰ.head (ground arith), ground arith)
    | inr n ↦ let (m, q) = find-mem p xs (ground arith) in (Memᴰ.tail m, q)
  ]

  pub any_of_mem : (p : A → Bool) (xs : List A) {a : A} → Memᴰ a xs → p a ≡ true → any p xs ≡ true
  any_of_mem p [] m h = elim m [ ]
  any_of_mem p (x ∷ xs) (Memᴰ.head e) h = rw (subst (λ y. p y ≡ true) e h) refl
  any_of_mem p (x ∷ xs) (Memᴰ.tail m) h = ground (arith, any_of_mem p xs m h)

  -- A test that no element passes.
  pub any-false_iff : (p : A → Bool) (xs : List A) → any p xs ≡ false → All (λ x. p x ≡ false) xs
  any-false_iff p [] h = tt
  any-false_iff p (x ∷ xs) h = (ground arith, any-false_iff p xs (ground arith))

module _ {ℓ κ} {A : Type ℓ} {B : Type κ} where
  pub mem-map : (f : A → B) (xs : List A) {a : A} → Memᴰ a xs → Memᴰ (f a) (map f xs)
  mem-map f [] m = elim m [ ]
  mem-map f (x ∷ xs) (Memᴰ.head e) = Memᴰ.head (ap f e)
  mem-map f (x ∷ xs) (Memᴰ.tail m) = Memᴰ.tail (mem-map f xs m)

  pub mem-of_map :
      (f : A → B) (xs : List A) {b : B} → Memᴰ b (map f xs) → (a : A) × Memᴰ a xs × (b ≡ f a)
  mem-of_map f [] m = elim m [ ]
  mem-of_map f (x ∷ xs) (Memᴰ.head e) = (x, Memᴰ.head refl, e)
  mem-of_map f (x ∷ xs) (Memᴰ.tail m) = let (a, k, e) = mem-of_map f xs m in (a, Memᴰ.tail k, e)

  pub All-map {μ} :
      (P : B → Type μ) (f : A → B) (xs : List A) → All (λ x. P (f x)) xs → All P (map f xs)
  All-map P f [] h = tt
  All-map P f (x ∷ xs) h = (h.0, All-map P f xs h.1)

  -- What holds of the images holds of the elements of the mapped list.
  pub each-map {μ} :
      (P : B → Type μ) (f : A → B) (xs : List A)
      → ((a : A) → Memᴰ a xs → P (f a))
      → (b : B) → Memᴰ b (map f xs)
      → P b
  each-map P f xs h b m = let (a, k, e) = mem-of_map f xs m in subst P (sym e) (h a k)

module _ {ℓ} {A : Type ℓ} where
  -- A change that the test does not see keeps what is found, up to the change.
  pub find-map :
      (p : A → Bool) (g : A → A) (xs : List A) {a : A}
      → ((x : A) → p (g x) ≡ p x)
      → find p xs ≡ some a
      → find p (map g xs) ≡ some (g a)
  find-map p g [] keeps h = cc
  find-map p g (x ∷ xs) keeps h = elim (Bool-cases (p x)) [
    | inl t ↦ rw (keeps x, t) (ground arith)
    | inr f ↦ rw (keeps x, f) (find-map p g xs keeps (ground arith))
  ]

  pub map-map : (f g : A → A) (xs : List A) → map f (map g xs) ≡ map (λ x. f (g x)) xs
  map-map f g [] = refl
  map-map f g (x ∷ xs) = rw (map-map f g xs)
