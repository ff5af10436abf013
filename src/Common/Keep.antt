-- ===== src/Common/Keep.antt =====
-- Filters of lists, and predicates on every member.
use mathlib.Core.Path.{◌≡◌, refl}
use mathlib.Core.Logic.{inl, inr}
use mathlib.Core.Bool.{Bool, true, ◌&&◌}
use mathlib.Core.List.{List, [], ◌∷◌, ◌++◌}
use native.Mathlib.Omega.{arith}
use free_link_app.Common.Tests.{Bool-cases}
use free_link_app.Common.Lists.{All, keep}

-- Two filters that agree on the members of a list.
pub keep-cong {ℓ} :
    {A : Type ℓ} (p q : A → Bool) (xs : List A) → All (λ x. p x ≡ q x) xs → keep p xs ≡ keep q xs
keep-cong p q [] h = refl
keep-cong p q (x ∷ xs) h = rw (h.0, keep-cong p q xs h.1) refl

pub keep-keep {ℓ} :
    {A : Type ℓ} (p q : A → Bool) (xs : List A) → keep p (keep q xs) ≡ keep (λ x. q x && p x) xs
keep-keep p q [] = refl
keep-keep p q (x ∷ xs) = ground (arith, keep-keep p q xs)

pub All-every {ℓ κ} : {A : Type ℓ} (P : A → Type κ) → ((x : A) → P x) → (xs : List A) → All P xs
All-every P h [] = tt
All-every P h (x ∷ xs) = (h x, All-every P h xs)

pub keep_all {ℓ} :
    {A : Type ℓ} (p : A → Bool) (xs : List A) → ((x : A) → p x ≡ true) → keep p xs ≡ xs
keep_all p [] h = refl
keep_all p (x ∷ xs) h = rw (h x, keep_all p xs h) refl

module _ {ℓ κ} {A : Type ℓ} where
  pub All-snoc : (P : A → Type κ) (xs : List A) (x : A) → All P xs → P x → All P (xs ++ x ∷ [])
  All-snoc P [] x h k = (k, tt)
  All-snoc P (y ∷ ys) x h k = (h.0, All-snoc P ys x h.1 k)

  -- What a filter keeps has what its members have and what the test says.
  pub All-keep :
      (P Q : A → Type κ) (p : A → Bool) (xs : List A)
      → All P xs
      → ((x : A) → P x → p x ≡ true → Q x)
      → All Q (keep p xs)
  All-keep P Q p [] h f = tt
  All-keep P Q p (x ∷ xs) h f = elim (Bool-cases (p x)) [
    | inl e ↦ rw e (f x h.0 e, All-keep P Q p xs h.1 f)
    | inr e ↦ rw e (All-keep P Q p xs h.1 f)
  ]

  pub All-map : (P Q : A → Type κ) (xs : List A) → All P xs → ((x : A) → P x → Q x) → All Q xs
  All-map P Q [] h f = tt
  All-map P Q (x ∷ xs) h f = (f x h.0, All-map P Q xs h.1 f)
