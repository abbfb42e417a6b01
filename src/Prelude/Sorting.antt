-- ===== src/Prelude/Sorting.antt =====
-- Sorting by a number, the greatest first; elements with the same number stay in their order.
use Prim.Native.Nat.{ℕ, zero, suc, ◌≤◌}
use mathlib.Core.Logic.{inl, inr}
use mathlib.Core.List.{List, [], ◌∷◌}
use native.Mathlib.Omega.{arith}
use spark_db.Prelude.Tests.{ltb, if◌then◌else◌, Bool-cases}
use spark_db.Prelude.Lists.{All, take, drop}

module _ {ℓ} {A : Type ℓ} (key : A → ℕ) where
  abbrev pub insert_newest : A → List A → List A
  insert_newest x [] = x ∷ []
  insert_newest x (y ∷ ys) =
      let rest = insert_newest x ys in if ltb (key x) (key y) then y ∷ rest else x ∷ y ∷ ys

  abbrev pub newest_first : List A → List A
  newest_first [] = []
  newest_first (x ∷ xs) = insert_newest x (newest_first xs)

  abbrev pub NewestFirst : List A → Type ℓ
  NewestFirst [] = Unit
  NewestFirst (x ∷ xs) = All (λ y. key y ≤ key x) xs × NewestFirst xs

  pub All-insert_newest {κ} :
      (P : A → Type κ) (x : A) (ys : List A) → P x → All P ys → All P (insert_newest x ys)
  All-insert_newest P x [] px h = (px, tt)
  All-insert_newest P x (y ∷ ys) px (py, h) = elim (Bool-cases (ltb (key x) (key y))) [
    | inl e ↦ rw (e) (py, All-insert_newest P x ys px h)
    | inr e ↦ rw (e) (px, (py, h))
  ]

  pub All-newest_first {κ} : (P : A → Type κ) (xs : List A) → All P xs → All P (newest_first xs)
  All-newest_first P [] h = tt
  All-newest_first P (x ∷ xs) (px, h) =
      All-insert_newest P x (newest_first xs) px (All-newest_first P xs h)

  All-weaken : (n m : ℕ) (xs : List A) → n ≤ m → All (λ y. key y ≤ n) xs → All (λ y. key y ≤ m) xs
  All-weaken n m [] le h = tt
  All-weaken n m (x ∷ xs) le (hx, h) = (omega arith, All-weaken n m xs le h)

  insert_newest-NewestFirst :
      (x : A) (ys : List A) → NewestFirst ys → NewestFirst (insert_newest x ys)
  insert_newest-NewestFirst x [] h = (tt, tt)
  insert_newest-NewestFirst x (y ∷ ys) (below, h) = elim (Bool-cases (ltb (key x) (key y))) [
    | inl e ↦ rw (e) (
      All-insert_newest (λ z. key z ≤ key y) x ys (ground arith) below,
      insert_newest-NewestFirst x ys h,
    )
    | inr e ↦
        let le : key y ≤ key x = ground arith in
        rw (e) ((le, All-weaken (key y) (key x) ys le below), (below, h))
  ]

  pub newest_first-NewestFirst : (xs : List A) → NewestFirst (newest_first xs)
  newest_first-NewestFirst [] = tt
  newest_first-NewestFirst (x ∷ xs) =
      insert_newest-NewestFirst x (newest_first xs) (newest_first-NewestFirst xs)

  All-drop {κ} : (P : A → Type κ) (n : ℕ) (xs : List A) → All P xs → All P (drop n xs)
  All-drop P zero xs h = h
  All-drop P (suc n) [] h = h
  All-drop P (suc n) (x ∷ xs) (px, h) = All-drop P n xs h

  -- In such an order none of the later elements is newer than one of the first.
  pub NewestFirst-take :
      (n : ℕ) (xs : List A)
      → NewestFirst xs
      → All (λ x. All (λ y. key y ≤ key x) (drop n xs)) (take n xs)
  NewestFirst-take zero xs h = tt
  NewestFirst-take (suc n) [] h = tt
  NewestFirst-take (suc n) (x ∷ xs) (below, h) =
      (All-drop (λ y. key y ≤ key x) n xs below, NewestFirst-take n xs h)
