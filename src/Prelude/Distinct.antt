-- ===== src/Prelude/Distinct.antt =====
-- Lists whose elements differ in a key, such as the rows under a UNIQUE constraint.
use mathlib.Core.Path.{◌≡◌, sym}
use mathlib.Core.Bool.{Bool, false}
use mathlib.Core.Logic.{◌≢◌}
use mathlib.Core.List.{List, [], ◌∷◌, ◌++◌}
use native.Mathlib.Omega.{arith}
use spark_db.Prelude.Tests.{Bool-cases}
use mathlib.Core.Logic.{inl, inr}
use spark_db.Prelude.Lists.{All, update_where, filter, any}

module _ {ℓ κ} {A : Type ℓ} where
  pub All-update_where :
      (P : A → Type κ) (p : A → Bool) (f : A → A) (xs : List A)
      → ((x : A) → P x → P (f x))
      → All P xs
      → All P (update_where p f xs)
  All-update_where P p f [] keep h = tt
  All-update_where P p f (x ∷ xs) keep h = elim (Bool-cases (p x)) [
    | inl e ↦ rw e (keep x h.0, All-update_where P p f xs keep h.1)
    | inr e ↦ rw e (h.0, All-update_where P p f xs keep h.1)
  ]

  pub All-filter : (P : A → Type κ) (p : A → Bool) (xs : List A) → All P xs → All P (filter p xs)
  All-filter P p [] h = tt
  All-filter P p (x ∷ xs) h = elim (Bool-cases (p x)) [
    | inl e ↦ rw e (h.0, All-filter P p xs h.1)
    | inr e ↦ rw e (All-filter P p xs h.1)
  ]

  pub All-map {μ} :
      (P : A → Type κ) (Q : A → Type μ) (xs : List A) → ((x : A) → P x → Q x) → All P xs → All Q xs
  All-map P Q [] f h = tt
  All-map P Q (x ∷ xs) f h = (f x h.0, All-map P Q xs f h.1)

module _ {ℓ} {A : Type ℓ} where
  pub any-false : (p : A → Bool) (xs : List A) → any p xs ≡ false → All (λ x. p x ≡ false) xs
  any-false p [] h = tt
  any-false p (x ∷ xs) h = (ground arith, any-false p xs (ground arith))

module _ {ℓ κ} {A : Type ℓ} {B : Type κ} (key : A → B) where
  abbrev pub Apart : List A → Type (ℓ ⊔ κ)
  Apart [] = Unit
  Apart (x ∷ xs) = All (λ y. key y ≢ key x) xs × Apart xs

  pub Apart-append :
      (xs : List A) (x : A) → Apart xs → All (λ y. key y ≢ key x) xs → Apart (xs ++ x ∷ [])
  Apart-append [] x a h = (tt, tt)
  Apart-append (y ∷ xs) x a h = (last xs a.0, Apart-append xs x a.1 h.1)
    where
      last : (zs : List A) → All (λ z. key z ≢ key y) zs → All (λ z. key z ≢ key y) (zs ++ x ∷ [])
      last [] k = (λ e. h.0 (sym e), tt)
      last (z ∷ zs) k = (k.0, last zs k.1)

  pub Apart-filter : (p : A → Bool) (xs : List A) → Apart xs → Apart (filter p xs)
  Apart-filter p [] a = tt
  Apart-filter p (x ∷ xs) a = elim (Bool-cases (p x)) [
    | inl e ↦ rw e (All-filter (λ y. key y ≢ key x) p xs a.0, Apart-filter p xs a.1)
    | inr e ↦ rw e (Apart-filter p xs a.1)
  ]

  pub Apart-update_where :
      (p : A → Bool) (f : A → A) (xs : List A)
      → ((x : A) → key (f x) ≡ key x)
      → Apart xs
      → Apart (update_where p f xs)
  Apart-update_where p f [] same a = tt
  Apart-update_where p f (x ∷ xs) same a =
      let later = All-update_where (λ y. key y ≢ key x) p f xs (λ y n. rw (same y) n) a.0 in
      elim (Bool-cases (p x)) [
        | inl e ↦ rw (e, same x) (later, Apart-update_where p f xs same a.1)
        | inr e ↦ rw e (later, Apart-update_where p f xs same a.1)
      ]
