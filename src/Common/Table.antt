-- ===== src/Common/Table.antt =====
-- Tables as lists of rows in the order of a scan, lengths over the native numbers, and the
-- queries that the program writes.
use Prim.Native.Nat.{ℕ, zero, suc}
use mathlib.Core.Path.{◌≡◌, refl, sym, ap, ◌∙◌}
use mathlib.Core.Logic.{inl, inr}
use mathlib.Core.Bool.{Bool, true, false}
use mathlib.Core.Option.{Option, none, some}
use mathlib.Core.List.{List, [], ◌∷◌, map, Memᴰ}
use native.Mathlib.Omega.{arith}
use resume_screening_service.Common.Tests.{if◌then◌else◌, Bool-cases, Option-cases}
use resume_screening_service.Common.Equality.{Comparable, ◌==◌, nat_eq, ==-refl, eq_of_==}

module _ {ℓ} {A : Type ℓ} where
  abbrev pub length : List A → ℕ
  length [] = 0
  length (x ∷ xs) = suc (length xs)

  -- `l[:n]`
  abbrev pub take : ℕ → List A → List A
  take zero xs = []
  take (suc n) [] = []
  take (suc n) (x ∷ xs) = x ∷ take n xs

  -- `l[n:]`
  abbrev pub drop : ℕ → List A → List A
  drop zero xs = xs
  drop (suc n) [] = []
  drop (suc n) (x ∷ xs) = drop n xs

  -- The first row that a condition selects: `db.scalar(select(...).where(...))`.
  unfoldable pub find : (A → Bool) → List A → Option A
  find p [] = none
  find p (x ∷ xs) = if p x then some x else find p xs

  -- All rows that a condition selects: `db.scalars(select(...).where(...)).all()`.
  unfoldable pub select : (A → Bool) → List A → List A
  select p [] = []
  select p (x ∷ xs) = if p x then x ∷ select p xs else select p xs

  -- `select(func.count()).where(...)`
  abbrev pub count : (A → Bool) → List A → ℕ
  count p xs = length (select p xs)

  -- Every row meets a condition.
  unfoldable pub every : (A → Bool) → List A → Bool
  every p [] = true
  every p (x ∷ xs) = if p x then every p xs else false

  pub find-holds : (p : A → Bool) (xs : List A) (x : A) → find p xs ≡ some x → p x ≡ true
  unfolding find
  find-holds p [] x h = cc
  find-holds p (y ∷ xs) x h = ground (arith, find-holds p xs x)

  pub find-Memᴰ : (p : A → Bool) (xs : List A) (x : A) → find p xs ≡ some x → Memᴰ x xs
  unfolding find
  find-Memᴰ p [] x h = absurd (cc)
  find-Memᴰ p (y ∷ xs) x h = elim (Bool-cases (p y)) [
    | inl e ↦ Memᴰ.head (ground arith)
    | inr e ↦ Memᴰ.tail (find-Memᴰ p xs x (ground arith))
  ]

  -- A query that finds nothing has been answered by every row.
  pub find-none : (p : A → Bool) (xs : List A) (x : A) → find p xs ≡ none → Memᴰ x xs → p x ≡ false
  unfolding find
  find-none p [] x h m = elim m [ ]
  find-none p (y ∷ xs) x h (Memᴰ.head e) = ground arith
  find-none p (y ∷ xs) x h (Memᴰ.tail m) = ground (arith, find-none p xs x (ground arith) m)

  pub select-Memᴰ :
      (p : A → Bool) (xs : List A) (x : A) → Memᴰ x (select p xs) → Memᴰ x xs × (p x ≡ true)
  unfolding select
  select-Memᴰ p [] x m = elim m [ ]
  select-Memᴰ p (y ∷ xs) x m = split (select-Memᴰ p xs x) (p y) refl m
    where
      split :
          (Memᴰ x (select p xs) → Memᴰ x xs × (p x ≡ true))
          → (b : Bool) → p y ≡ b
          → Memᴰ x (if b then y ∷ select p xs else select p xs)
          → Memᴰ x (y ∷ xs) × (p x ≡ true)
      split ih true e (Memᴰ.head same) = (Memᴰ.head same, ground arith)
      split ih true e (Memᴰ.tail n) = (Memᴰ.tail (ih n).0, (ih n).1)
      split ih false e n = (Memᴰ.tail (ih n).0, (ih n).1)

  pub every-Memᴰ : (p : A → Bool) (xs : List A) (x : A) → every p xs ≡ true → Memᴰ x xs → p x ≡ true
  unfolding every
  every-Memᴰ p [] x h m = elim m [ ]
  every-Memᴰ p (y ∷ xs) x h (Memᴰ.head e) = ground arith
  every-Memᴰ p (y ∷ xs) x h (Memᴰ.tail m) = ground (arith, every-Memᴰ p xs x (ground arith) m)

  -- A condition that is weaker holds of every row too.
  pub every_mono :
      (p q : A → Bool)
      → ((x : A) → p x ≡ true → q x ≡ true)
      → (xs : List A) → every p xs ≡ true
      → every q xs ≡ true
  unfolding every
  every_mono p q weaker [] h = refl
  every_mono p q weaker (x ∷ xs) h = ground (arith, weaker x, every_mono p q weaker xs)

module _ {ℓ} {A : Type ℓ} ⦃e : Comparable A⦄ where
  -- `a in xs`
  unfoldable pub contains : A → List A → Bool
  contains a [] = false
  contains a (x ∷ xs) = if x == a then true else contains a xs

  -- No value twice.
  unfoldable pub distinct : List A → Bool
  unfolding contains
  distinct [] = true
  distinct (x ∷ xs) = if contains x xs then false else distinct xs

pub contains-map {ℓ κ} :
    {A : Type ℓ} {B : Type κ} ⦃e : Comparable B⦄ (f : A → B) (x : A) (xs : List A)
    → Memᴰ x xs
    → contains (f x) (map f xs) ≡ true
unfolding contains
contains-map f x [] m = elim m [ ]
contains-map ⦃e⦄ f x (y ∷ xs) (Memᴰ.head h) = rw (← h, ==-refl ⦃e = e⦄ (f x))
contains-map ⦃e⦄ f x (y ∷ xs) (Memᴰ.tail m) = ground (arith, contains-map ⦃e = e⦄ f x xs m)

-- Two rows with one value in a column of distinct values are one row.
pub unique_of_distinct {ℓ κ} :
    {A : Type ℓ} {B : Type κ} ⦃e : Comparable B⦄ (f : A → B) (x y : A) (xs : List A)
    → distinct (map f xs) ≡ true
    → Memᴰ x xs
    → Memᴰ y xs
    → f x ≡ f y
    → x ≡ y
unfolding distinct
unique_of_distinct f x y [] d m n h = elim m [ ]
unique_of_distinct f x y (z ∷ xs) d (Memᴰ.head p) (Memᴰ.head q) h = cc
unique_of_distinct ⦃e⦄ f x y (z ∷ xs) d (Memᴰ.head p) (Memᴰ.tail n) h =
    absurd (ground (arith, contains-map ⦃e = e⦄ f y xs n, ap f p))
unique_of_distinct ⦃e⦄ f x y (z ∷ xs) d (Memᴰ.tail m) (Memᴰ.head q) h =
    absurd (ground (arith, contains-map ⦃e = e⦄ f x xs m, ap f q))
unique_of_distinct ⦃e⦄ f x y (z ∷ xs) d (Memᴰ.tail m) (Memᴰ.tail n) h =
    unique_of_distinct ⦃e = e⦄ f x y xs (ground arith) m n h

-- A query by a column of distinct values finds the row of the value.
pub find_of_distinct {ℓ κ} :
    {A : Type ℓ} {B : Type κ} ⦃e : Comparable B⦄ (f : A → B) (x : A) (b : B) (xs : List A)
    → distinct (map f xs) ≡ true
    → Memᴰ x xs
    → f x ≡ b
    → find (λ y. f y == b) xs ≡ some x
find_of_distinct ⦃e⦄ f x b xs d m h = elim (Option-cases (find (λ y. f y == b) xs)) [
  | inl missing ↦
      let other = find-none (λ y. f y == b) xs x missing m in
      absurd (ground (arith, sym (==-refl ⦃e = e⦄ b) ∙ ap (λ a. a == b) (sym h) ∙ other))
  | inr (y, found) ↦
      let same = eq_of_== ⦃e = e⦄ (f y) b (find-holds (λ z. f z == b) xs y found) in
      let one =
        unique_of_distinct ⦃e = e⦄ f x y xs d m (find-Memᴰ (λ z. f z == b) xs y found)
          (h ∙ sym same) in
      found ∙ ap some (sym one)
]

-- The values of a column that are not NULL.
abbrev pub values {ℓ κ} : {A : Type ℓ} {B : Type κ} → (A → Option B) → List A → List B
values f [] = []
values f (x ∷ xs) = elim (f x) [ none ↦ values f xs | some b ↦ b ∷ values f xs ]
