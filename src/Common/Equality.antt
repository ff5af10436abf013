-- ===== src/Common/Equality.antt =====
-- Equality of keys as an interface: `==` on numbers, texts and identifiers.
use Prim.Native.Nat.{ℕ}
use Prim.Native.String.{String}
use mathlib.Core.Path.{◌≡◌, refl}
use mathlib.Core.Logic.{◌↔◌}
use mathlib.Core.Bool.{Bool, true}
use text.Mathlib.Text.{◌==◌ as str_eq}
use text.Mathlib.TextEquality.{eq_iff}
use free_link_app.Common.Tests.{nat_eq, nat_eq_iff}
use free_link_app.Common.Int.{ℤ, int_eq, int_eq_iff}

pub record Eq {ℓ} (A : Type ℓ) : Type ℓ where
  pub beq : A → A → Bool
  pub beq_iff : (a b : A) → (beq a b ≡ true) ↔ (a ≡ b)

-- The identifiers of profiles and groups.
instance abbrev pub ℤ_eq : Eq ℤ
ℤ_eq = record { beq_iff = int_eq_iff; beq = int_eq }

-- Names, tags and the keys of objects.
instance abbrev pub String_eq : Eq String
String_eq = record { beq_iff = eq_iff; beq = str_eq }

instance abbrev pub ℕ_eq : Eq ℕ
ℕ_eq = record { beq_iff = nat_eq_iff; beq = nat_eq }

infix 50 ◌==◌
abbrev pub ◌==◌ {ℓ} : {A : Type ℓ} ⦃e : Eq A⦄ → A → A → Bool
◌==◌ ⦃e⦄ = e.beq

pub beq_refl {ℓ} : {A : Type ℓ} ⦃e : Eq A⦄ (a : A) → (a == a) ≡ true
beq_refl ⦃e⦄ a = (e.beq_iff a a).1 refl
