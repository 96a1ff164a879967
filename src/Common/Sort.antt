-- ===== src/Common/Sort.antt =====
-- `l.sort(key=…, reverse=True)` of Python: the largest key first, and equal keys in the order that
-- they had. The same list answers `order_by(column.desc())`, whose ties the database may return in
-- any order: here they come in the order of the table, which is any order too.
pub mod Laws
use mathlib.Core.List.{List, [], ◌∷◌}
use resume_screening_service.Common.Tests.{if◌then◌else◌}
use resume_screening_service.Common.Int.{ℤ, leb_ℤ}

module _ {ℓ} {A : Type ℓ} (key : A → ℤ) where
  unfoldable pub insert_desc : A → List A → List A
  insert_desc x [] = x ∷ []
  insert_desc x (y ∷ ys) = if leb_ℤ (key y) (key x) then x ∷ y ∷ ys else y ∷ insert_desc x ys

  unfoldable pub sort_desc : List A → List A
  unfolding insert_desc
  sort_desc [] = []
  sort_desc (x ∷ xs) = insert_desc x (sort_desc xs)
