-- ===== src/Base/Lists.antt =====
-- Lists measured by native numbers, membership of a pointer in a list, and stores of objects.
use Prim.Native.Nat.{ℕ, suc, ◌+◌}
use mathlib.Core.Path.{◌≡◌, refl}
use mathlib.Core.Bool.{Bool, true, false, ◌||◌, or_assoc}
use mathlib.Core.List.{List, [], ◌∷◌, ◌++◌}
use native.Mathlib.Omega.{arith}
use libtask_annotation.Base.Tests.{◌==◌, if◌then◌else◌}

-- Pointers are numbers, and 0 is `nil`.
abbrev pub Ptr : Type 0
Ptr = ℕ

module _ {ℓ} {A : Type ℓ} where
  abbrev pub length : List A → ℕ
  length [] = 0
  length (_ ∷ xs) = suc (length xs)

  pub length-append : (xs ys : List A) → length (xs ++ ys) ≡ length xs + length ys
  length-append [] ys = omega arith
  length-append (x ∷ xs) ys = omega (arith, length-append xs ys)

-- A store of objects by their pointers, or an array by its indices: a write at one place.
abbrev pub update {ℓ} : {A : Type ℓ} → (ℕ → A) → ℕ → A → ℕ → A
update f p v q = if q == p then v else f q

abbrev pub has : Ptr → List Ptr → Bool
has a [] = false
has a (x ∷ xs) = (a == x) || has a xs

infix 40 ◌∈◌ ◌∉◌
abbrev pub ◌∈◌ : Ptr → List Ptr → Type 0
a ∈ xs = has a xs ≡ true

abbrev pub ◌∉◌ : Ptr → List Ptr → Type 0
a ∉ xs = has a xs ≡ false

abbrev pub Disjoint : List Ptr → List Ptr → Type 0
Disjoint xs ys = (a : Ptr) → a ∈ xs → a ∉ ys

-- No pointer stands in the list twice.
abbrev pub IsDistinct : List Ptr → Type 0
IsDistinct [] = Unit
IsDistinct (x ∷ xs) = (x ∉ xs) × IsDistinct xs

pub has-append : (a : Ptr) (xs ys : List Ptr) → has a (xs ++ ys) ≡ (has a xs || has a ys)
has-append a [] ys = refl
has-append a (x ∷ xs) ys = rw (has-append a xs ys, or_assoc)

pub IsDistinct-snoc : (xs : List Ptr) (t : Ptr) → IsDistinct xs → t ∉ xs → IsDistinct (xs ++ t ∷ [])
IsDistinct-snoc [] t d out = (refl, tt)
IsDistinct-snoc (x ∷ xs) t d out =
    (ground (arith, has-append x xs (t ∷ [])), IsDistinct-snoc xs t d.1 (ground arith))
