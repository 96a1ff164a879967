-- ===== src/Common/Rows.antt =====
-- Tables of rows with a primary key: the row of a key, and a change of a row.
use Prim.Native.Nat.{ℕ}
use mathlib.Core.Path.{◌≡◌, refl, sym, ap, ◌∙◌}
use mathlib.Core.Logic.{◌≢◌, inl, inr}
use mathlib.Core.Bool.{Bool, true, false}
use mathlib.Core.Option.{Option, none, some}
use mathlib.Core.List.{List, [], ◌∷◌, map, Memᴰ}
use native.Mathlib.Omega.{arith}
use resume_screening_service.Common.Tests.{if◌then◌else◌, Bool-cases, Option-cases}
use resume_screening_service.Common.Equality.{
  Comparable, ◌==◌, nat_eq, ==-refl, eq_of_==, option_is,
}
use resume_screening_service.Common.Table.{
  find, find-Memᴰ, select, every, contains, distinct, contains-map, values,
}

-- A row has a primary key.
pub record Row {ℓ} (A : Type ℓ) : Type ℓ where
  pub key : A → ℕ

module _ {ℓ} {A : Type ℓ} ⦃r : Row A⦄ where
  -- `db.get(Model, id)`
  unfoldable pub get : ℕ → List A → Option A
  unfolding find
  get k = find (λ x. r.key x == k)

  -- A change of the attributes of a row that a session holds: the row with its key is replaced.
  unfoldable pub put : A → List A → List A
  put x [] = []
  put x (y ∷ ys) = if r.key y == r.key x then x ∷ ys else y ∷ put x ys

  pub get-key : (k : ℕ) (xs : List A) (x : A) → get k xs ≡ some x → r.key x ≡ k
  unfolding get
  get-key k [] x h = cc
  get-key k (y ∷ xs) x h = ground (arith, get-key k xs x)

  pub get-key_self : (k : ℕ) (xs : List A) (x : A) → get k xs ≡ some x → get (r.key x) xs ≡ some x
  get-key_self k xs x h = ap (λ j. get j xs) (get-key k xs x h) ∙ h

  pub get-cons :
      (k : ℕ) (x : A) (xs : List A) → get k (x ∷ xs) ≡ (if r.key x == k then some x else get k xs)
  unfolding get
  get-cons k x xs = refl

  -- What a session reads after it has changed a row.
  pub get-put_ne : (k : ℕ) (x : A) (xs : List A) → r.key x ≢ k → get k (put x xs) ≡ get k xs
  unfolding get put
  get-put_ne k x [] h = refl
  get-put_ne k x (z ∷ xs) h = ground (arith, get-put_ne k x xs h)

  pub get-put_self :
      (x y : A) (xs : List A) → get (r.key x) xs ≡ some y → get (r.key x) (put x xs) ≡ some x
  unfolding get put
  get-put_self x y [] h = cc
  get-put_self x y (z ∷ xs) h = ground (arith, get-put_self x y xs)

  -- With distinct keys a row of the table is what its key finds.
  pub get_of_Memᴰ :
      (x : A) (xs : List A) → distinct (map r.key xs) ≡ true → Memᴰ x xs → get (r.key x) xs ≡ some x
  unfolding get distinct
  get_of_Memᴰ x [] d m = elim m [ ]
  get_of_Memᴰ x (y ∷ xs) d (Memᴰ.head e) = ground arith
  get_of_Memᴰ x (y ∷ xs) d (Memᴰ.tail m) =
      ground (arith, contains-map r.key x xs m, get_of_Memᴰ x xs (ground arith) m)

  -- With distinct keys a new row is not found in place of one that was there.
  pub get-cons_old :
      (k : ℕ) (x y : A) (xs : List A)
      → distinct (map r.key (x ∷ xs)) ≡ true
      → get k xs ≡ some y
      → get k (x ∷ xs) ≡ some y
  unfolding get distinct find
  get-cons_old k x y xs d h =
      let stored = contains-map r.key y xs (find-Memᴰ (λ z. r.key z == k) xs y h) in
      let same = get-key k xs y h in
      elim (Bool-cases (r.key x == k)) [
        | inl e ↦ absurd (ground (arith, eq_of_== ⦃e = nat_eq⦄ (r.key x) k e))
        | inr e ↦ ground arith
      ]

  -- Of two changes of one row the later one is kept.
  pub put-put : (x y : A) (xs : List A) → r.key x ≡ r.key y → put x (put y xs) ≡ put x xs
  unfolding put
  put-put x y [] h = refl
  put-put x y (z ∷ xs) h = ground (arith, put-put x y xs h)

  pub put-Memᴰ : (x y : A) (xs : List A) → get (r.key x) xs ≡ some y → Memᴰ x (put x xs)
  unfolding get put
  put-Memᴰ x y [] h = absurd (cc)
  put-Memᴰ x y (z ∷ xs) h = elim (Bool-cases (r.key z == r.key x)) [
    | inl same ↦ rw (same, put) (Memᴰ.head refl)
    | inr other ↦ rw (other, put) (Memᴰ.tail (put-Memᴰ x y xs (ground arith)))
  ]

  -- A change of a row that a query does not select changes nothing that it selects.
  pub select-put :
      (p : A → Bool) (x y : A) (xs : List A)
      → get (r.key x) xs ≡ some y
      → p x ≡ false
      → p y ≡ false
      → select p (put x xs) ≡ select p xs
  unfolding get put select
  select-put p x y [] h out was = refl
  select-put p x y (z ∷ xs) h out was = ground (arith, select-put p x y xs)

  pub every-put :
      (p : A → Bool) (x : A) (xs : List A)
      → every p xs ≡ true
      → p x ≡ true
      → every p (put x xs) ≡ true
  unfolding every put
  every-put p x [] h k = refl
  every-put p x (y ∷ xs) h k = ground (arith, every-put p x xs)

  module _ {κ} {B : Type κ} where
    -- A change that keeps a column of the row keeps the column of the table.
    pub map-put :
        (f : A → B) (x y : A) (xs : List A)
        → get (r.key x) xs ≡ some y
        → f x ≡ f y
        → map f (put x xs) ≡ map f xs
    unfolding get put
    map-put f x y [] h e = refl
    map-put f x y (z ∷ xs) h e = elim (Bool-cases (r.key z == r.key x)) [
      | inl same ↦ rw (same, put) (ap (λ b. b ∷ map f xs) (ground arith))
      | inr other ↦ rw (other, put) (ap (◌∷◌ (f z)) (map-put f x y xs (ground arith) e))
    ]

    pub values-put :
        (f : A → Option B) (x y : A) (xs : List A)
        → get (r.key x) xs ≡ some y
        → f x ≡ f y
        → values f (put x xs) ≡ values f xs
    unfolding get put
    values-put f x y [] h e = refl
    values-put f x y (z ∷ xs) h e = ground (arith, values-put f x y xs)

pub every-get {ℓ} :
    {A : Type ℓ} ⦃r : Row A⦄ (p : A → Bool) (k : ℕ) (xs : List A) (x : A)
    → every p xs ≡ true
    → get k xs ≡ some x
    → p x ≡ true
unfolding every get
every-get p k [] x h e = cc
every-get p k (y ∷ xs) x h e = ground (arith, every-get p k xs x)

-- What a query did not find is not in the column.
pub contains-keys {ℓ} :
    {A : Type ℓ} ⦃r : Row A⦄ (k : ℕ) (xs : List A)
    → get k xs ≡ none
    → contains k (map r.key xs) ≡ false
unfolding contains get
contains-keys k [] h = refl
contains-keys k (y ∷ xs) h = ground (arith, contains-keys k xs)

pub contains-values {ℓ κ} :
    {A : Type ℓ} {B : Type κ} ⦃e : Comparable B⦄ (f : A → Option B) (b : B) (xs : List A)
    → find (λ x. option_is (f x) b) xs ≡ none
    → contains b (values f xs) ≡ false
unfolding contains find
contains-values f b [] h = refl
contains-values ⦃e⦄ f b (y ∷ xs) h = ground (arith, contains-values ⦃e = e⦄ f b xs)

pub contains-values_self {ℓ κ} :
    {A : Type ℓ} {B : Type κ} ⦃e : Comparable B⦄ (f : A → Option B) (b : B) (x : A) (xs : List A)
    → Memᴰ x xs
    → f x ≡ some b
    → contains b (values f xs) ≡ true
unfolding contains
contains-values_self f b x [] m h = elim m [ ]
contains-values_self ⦃e⦄ f b x (y ∷ xs) (Memᴰ.head same) h =
    let named : f y ≡ some b = ap f (sym same) ∙ h in ground (arith, named, ==-refl ⦃e = e⦄ b)
contains-values_self ⦃e⦄ f b x (y ∷ xs) (Memᴰ.tail m) h =
    ground (arith, contains-values_self ⦃e = e⦄ f b x xs m h)

-- Every row that meets the condition is selected.
pub Memᴰ-select {ℓ} :
    {A : Type ℓ} (p : A → Bool) (x : A) (xs : List A)
    → Memᴰ x xs
    → p x ≡ true
    → Memᴰ x (select p xs)
unfolding select
Memᴰ-select p x [] m h = elim m [ ]
Memᴰ-select p x (y ∷ ys) (Memᴰ.head e) h =
    let holds : p y ≡ true = ap p (sym e) ∙ h in rw holds (Memᴰ.head e)
Memᴰ-select p x (y ∷ ys) (Memᴰ.tail m) h = pick (p y) (Memᴰ-select p x ys m h)
  where
    pick : (b : Bool) → Memᴰ x (select p ys) → Memᴰ x (if b then y ∷ select p ys else select p ys)
    pick true n = Memᴰ.tail n
    pick false n = n

module _ {ℓ κ} {A : Type ℓ} {B : Type κ} ⦃e : Comparable B⦄ ⦃r : Row A⦄ (f : A → Option B) (v : B)
    (x old : A) where
  -- the values of a nullable column, of which a row with NULL gets one
  contains-values-put :
      (b : B) (xs : List A)
      → get (r.key x) xs ≡ some old
      → f old ≡ none
      → f x ≡ some v
      → contains b (values f (put x xs)) ≡ (if v == b then true else contains b (values f xs))
  unfolding get put contains
  contains-values-put b [] found was is = absurd (cc)
  contains-values-put b (y ∷ xs) found was is = elim (Bool-cases (r.key y == r.key x)) [
    | inl same ↦
        let is_old : y ≡ old = ground arith in
        let null : f y ≡ none = ap f is_old ∙ was in ground arith
    | inr other ↦ ground (arith, contains-values-put b xs)
  ]

  -- A value that no row has keeps the column distinct.
  pub distinct-values-put :
      (xs : List A)
      → get (r.key x) xs ≡ some old
      → f old ≡ none
      → f x ≡ some v
      → contains v (values f xs) ≡ false
      → distinct (values f xs) ≡ true
      → distinct (values f (put x xs)) ≡ true
  unfolding get put distinct contains
  distinct-values-put [] found was is new d = absurd (cc)
  distinct-values-put (y ∷ xs) found was is new d = elim (Bool-cases (r.key y == r.key x)) [
    | inl same ↦
        let is_old : y ≡ old = ground arith in
        let null : f y ≡ none = ap f is_old ∙ was in ground arith
    | inr other ↦ elim (Option-cases (f y)) [
      | inl null ↦ ground (arith, distinct-values-put xs)
      | inr (b, at_b) ↦
          ground (
            arith,
            distinct-values-put xs,
            contains-values-put b xs,
            e.same_iff v b,
            e.same_iff b v,
          )
    ]
  ]
