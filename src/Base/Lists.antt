-- ===== src/Base/Lists.antt =====
-- Lists measured by native numbers, and the predicates by recursion that the components share.
use Prim.Native.Nat.{ℕ, suc, ◌+◌}
use mathlib.Core.Path.{◌≡◌, refl, ap}
use mathlib.Core.List.{List, [], ◌∷◌, ◌++◌, map}
use native.Mathlib.Omega.{arith}

module _ {ℓ} {A : Type ℓ} where
  abbrev pub length : List A → ℕ
  length [] = 0
  length (x ∷ xs) = suc (length xs)

  pub length-append : (xs ys : List A) → length (xs ++ ys) ≡ length xs + length ys
  length-append [] ys = omega arith
  length-append (x ∷ xs) ys = omega (arith, length-append xs ys)

  abbrev pub All {κ} : (A → Type κ) → List A → Type κ
  All P [] = Unit
  All P (x ∷ xs) = P x × All P xs

  pub All-append {κ} : (P : A → Type κ) (xs ys : List A) → All P xs → All P ys → All P (xs ++ ys)
  All-append P [] ys hx hy = hy
  All-append P (x ∷ xs) ys hx hy = (hx.0, All-append P xs ys hx.1 hy)

  -- A sum over a list.
  abbrev pub total : (A → ℕ) → List A → ℕ
  total w [] = 0
  total w (x ∷ xs) = w x + total w xs

  pub total-append : (w : A → ℕ) (xs ys : List A) → total w (xs ++ ys) ≡ total w xs + total w ys
  total-append w [] ys = omega arith
  total-append w (x ∷ xs) ys = omega (arith, total-append w xs ys)

module _ {ℓ κ} {A : Type ℓ} where
  pub All-imp :
      (P : A → Type κ) (Q : A → Type κ) (xs : List A) → ((x : A) → P x → Q x) → All P xs → All Q xs
  All-imp P Q [] f h = tt
  All-imp P Q (x ∷ xs) f h = (f x h.0, All-imp P Q xs f h.1)

  pub All-map :
      (P : A → Type κ) (f : A → A) (xs : List A) → All (λ x. P (f x)) xs → All P (map f xs)
  All-map P f [] h = tt
  All-map P f (x ∷ xs) h = (h.0, All-map P f xs h.1)

  pub All-both :
      (P : A → Type κ) (Q : A → Type κ) (xs : List A)
      → All P xs
      → All Q xs
      → All (λ x. P x × Q x) xs
  All-both P Q [] hp hq = tt
  All-both P Q (x ∷ xs) hp hq = ((hp.0, hq.0), All-both P Q xs hp.1 hq.1)

module _ {ℓ κ} {A : Type ℓ} {B : Type κ} where
  pub map-map {ι} :
      {C : Type ι} (f : B → C) (g : A → B) (xs : List A) → map f (map g xs) ≡ map (λ x. f (g x)) xs
  map-map f g [] = refl
  map-map f g (x ∷ xs) = ap (λ ys. f (g x) ∷ ys) (map-map f g xs)

  pub map-cong : (f g : A → B) (xs : List A) → All (λ x. f x ≡ g x) xs → map f xs ≡ map g xs
  map-cong f g [] h = refl
  map-cong f g (x ∷ xs) h = cc_step (f x) (g x) h.0 (map-cong f g xs h.1)
    where
      cc_step : {xs ys : List B} (a b : B) → a ≡ b → xs ≡ ys → a ∷ xs ≡ b ∷ ys
      cc_step a b e e' = cc

pub map-same {ℓ} : {A : Type ℓ} (f : A → A) (xs : List A) → All (λ x. f x ≡ x) xs → map f xs ≡ xs
map-same f [] h = refl
map-same f (x ∷ xs) (e, h) = go (f x) e (map-same f xs h)
  where
    go : {ys : List _} (y : _) → y ≡ x → ys ≡ xs → y ∷ ys ≡ x ∷ xs
    go y e e' = cc
