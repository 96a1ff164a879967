-- ===== src/Common/Sort/Laws.antt =====
-- The sort of Common.Sort beside the order of its keys.
use Prim.Native.Nat.{ℕ, zero, suc, ◌≤◌}
use mathlib.Core.Path.{◌≡◌, refl, ap}
use mathlib.Core.Logic.{◌⊎◌, inl, inr}
use mathlib.Core.Bool.{Bool, true, false, ◌&&◌}
use mathlib.Core.List.{List, [], ◌∷◌, ◌++◌, Memᴰ}
use native.Mathlib.Omega.{arith}
use resume_screening_service.Common.Tests.{⊤, if◌then◌else◌}
use resume_screening_service.Common.Table.{length, take, drop, select}
use resume_screening_service.Common.Int.{ℤ, leb_ℤ, ◌≤ℤ◌, leb_ℤ→≤ℤ, leb_ℤ_total, ≤ℤ_trans}
use resume_screening_service.Common.Sort.{insert_desc, sort_desc}

-- A property of every value of a list.
abbrev pub All {ℓ} : {A : Type ℓ} → (A → Type 0) → List A → Type 0
All P [] = ⊤
All P (x ∷ xs) = P x × All P xs

module _ {ℓ} {A : Type ℓ} where
  pub All-mono : (P Q : A → Type 0) → ((x : A) → P x → Q x) → (xs : List A) → All P xs → All Q xs
  All-mono P Q weaker [] h = tt
  All-mono P Q weaker (x ∷ xs) h = (weaker x h.0, All-mono P Q weaker xs h.1)

  pub All-++ : (P : A → Type 0) (xs ys : List A) → All P xs → All P ys → All P (xs ++ ys)
  All-++ P [] ys h k = k
  All-++ P (x ∷ xs) ys h k = (h.0, All-++ P xs ys h.1 k)

  pub All-take : (P : A → Type 0) (n : ℕ) (xs : List A) → All P xs → All P (take n xs)
  All-take P zero xs h = tt
  All-take P (suc n) [] h = tt
  All-take P (suc n) (x ∷ xs) h = (h.0, All-take P n xs h.1)

  pub take++drop : (n : ℕ) (xs : List A) → take n xs ++ drop n xs ≡ xs
  take++drop zero xs = refl
  take++drop (suc n) [] = refl
  take++drop (suc n) (x ∷ xs) = ap (λ ys. x ∷ ys) (take++drop n xs)

  -- A prefix has the length that was asked for, or is everything.
  pub length-take :
      (n : ℕ) (xs : List A)
      → (length (take n xs) ≡ n) ⊎ ((length (take n xs) ≤ n) × (drop n xs ≡ []))
  length-take zero xs = inl refl
  length-take (suc n) [] = inr (ground arith, refl)
  length-take (suc n) (x ∷ xs) = elim (length-take n xs) [
    | inl e ↦ inl (ap suc e)
    | inr (le, none) ↦ inr (omega arith, none)
  ]

module _ {ℓ} {A : Type ℓ} (key : A → ℤ) where
  abbrev pub IsDescending : List A → Type 0
  IsDescending [] = ⊤
  IsDescending (x ∷ xs) = All (λ y. key y ≤ℤ key x) xs × IsDescending xs

  -- `key x == k`
  abbrev pub has_key : ℤ → A → Bool
  has_key k x = leb_ℤ (key x) k && leb_ℤ k (key x)

  pub IsDescending-take : (n : ℕ) (xs : List A) → IsDescending xs → IsDescending (take n xs)
  IsDescending-take zero xs h = tt
  IsDescending-take (suc n) [] h = tt
  IsDescending-take (suc n) (x ∷ xs) h =
      (All-take (λ y. key y ≤ℤ key x) n xs h.0, IsDescending-take n xs h.1)

  pub All-insert :
      (P : A → Type 0) (x : A) (xs : List A) → P x → All P xs → All P (insert_desc key x xs)
  unfolding insert_desc
  All-insert P x [] p h = (p, tt)
  All-insert P x (y ∷ ys) p h = pick (All-insert P x ys p h.1) (leb_ℤ (key y) (key x))
    where
      pick :
          All P (insert_desc key x ys)
          → (b : Bool) → All P (if b then x ∷ y ∷ ys else y ∷ insert_desc key x ys)
      pick later true = (p, h)
      pick later false = (h.0, later)

  pub All-sort : (P : A → Type 0) (xs : List A) → All P xs → All P (sort_desc key xs)
  unfolding sort_desc
  All-sort P [] h = tt
  All-sort P (x ∷ xs) h = All-insert P x (sort_desc key xs) h.0 (All-sort P xs h.1)

  insert-IsDescending :
      (x : A) (xs : List A) → IsDescending xs → IsDescending (insert_desc key x xs)
  unfolding insert_desc
  insert-IsDescending x [] h = (tt, tt)
  insert-IsDescending x (y ∷ ys) h =
      pick (insert-IsDescending x ys h.1) (leb_ℤ (key y) (key x)) refl
    where
      pick :
          IsDescending (insert_desc key x ys)
          → (b : Bool) → leb_ℤ (key y) (key x) ≡ b
          → IsDescending (if b then x ∷ y ∷ ys else y ∷ insert_desc key x ys)
      pick later true e =
          let le = leb_ℤ→≤ℤ (key y) (key x) e in
          (
            (
              le,
              All-mono (λ z. key z ≤ℤ key y) (λ z. key z ≤ℤ key x)
                  (λ z below. ≤ℤ_trans (key z) (key y) (key x) below le) ys h.0,
            ),
            h,
          )
      pick later false e =
          let le = leb_ℤ_total (key y) (key x) e in
          (All-insert (λ z. key z ≤ℤ key y) x ys le h.0, later)

  pub sort-IsDescending : (xs : List A) → IsDescending (sort_desc key xs)
  unfolding sort_desc
  sort-IsDescending [] = tt
  sort-IsDescending (x ∷ xs) = insert-IsDescending x (sort_desc key xs) (sort-IsDescending xs)

module _ {A : Type 0} (key : A → ℤ) where
  select-insert :
      (k : ℤ) (x : A) (xs : List A)
      → select (has_key key k) (insert_desc key x xs) ≡ select (has_key key k) (x ∷ xs)
  unfolding insert_desc select
  select-insert k x [] = refl
  select-insert k x (y ∷ ys) = ground (arith, select-insert k x ys)

  -- The values with one key come in the order that they had.
  pub select-sort :
      (k : ℤ) (xs : List A) → select (has_key key k) (sort_desc key xs) ≡ select (has_key key k) xs
  unfolding sort_desc select
  select-sort k [] = refl
  select-sort k (x ∷ xs) = ground (arith, select-insert k x (sort_desc key xs), select-sort k xs)

module _ {ℓ} {A : Type ℓ} (key : A → ℤ) where
  insert-Memᴰ : (x y : A) (xs : List A) → Memᴰ y (x ∷ xs) → Memᴰ y (insert_desc key x xs)
  unfolding insert_desc
  insert-Memᴰ x y [] m = m
  insert-Memᴰ x y (z ∷ zs) m = pick (leb_ℤ (key z) (key x)) (λ n. insert-Memᴰ x y zs n) m
    where
      pick :
          (b : Bool)
          → (Memᴰ y (x ∷ zs) → Memᴰ y (insert_desc key x zs))
          → Memᴰ y (x ∷ z ∷ zs)
          → Memᴰ y (if b then x ∷ z ∷ zs else z ∷ insert_desc key x zs)
      pick true ih n = n
      pick false ih (Memᴰ.head e) = Memᴰ.tail (ih (Memᴰ.head e))
      pick false ih (Memᴰ.tail (Memᴰ.head e)) = Memᴰ.head e
      pick false ih (Memᴰ.tail (Memᴰ.tail n)) = Memᴰ.tail (ih (Memᴰ.tail n))

  -- No value is lost.
  pub sort-Memᴰ : (y : A) (xs : List A) → Memᴰ y xs → Memᴰ y (sort_desc key xs)
  unfolding sort_desc
  sort-Memᴰ y [] m = m
  sort-Memᴰ y (x ∷ xs) (Memᴰ.head e) = insert-Memᴰ x y (sort_desc key xs) (Memᴰ.head e)
  sort-Memᴰ y (x ∷ xs) (Memᴰ.tail m) =
      insert-Memᴰ x y (sort_desc key xs) (Memᴰ.tail (sort-Memᴰ y xs m))

-- the selected values that are asked for
pub All-of_Memᴰ {ℓ} :
    {A : Type ℓ} (P : A → Type 0) (xs : List A) → ((x : A) → Memᴰ x xs → P x) → All P xs
All-of_Memᴰ P [] h = tt
All-of_Memᴰ P (x ∷ xs) h = (h x (Memᴰ.head refl), All-of_Memᴰ P xs (λ y m. h y (Memᴰ.tail m)))
