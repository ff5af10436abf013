-- ===== src/Common/Int.antt =====
-- The signed identifiers of profiles, groups and outbounds (`int`).
use Prim.Native.Nat.{ℕ}
use mathlib.Core.Path.{◌≡◌, ap}
use mathlib.Core.Logic.{◌↔◌}
use mathlib.Core.Bool.{Bool, true, false}
use native.Mathlib.Omega.{arith}
use free_link_app.Common.Tests.{nat_eq, nat_eq_iff}

-- `negsuc n` is -(n + 1).
pub data ℤ : Type 0 where
  pos : ℕ → ℤ
  negsuc : ℕ → ℤ

abbrev pub int_eq : ℤ → ℤ → Bool
int_eq (pos a) (pos b) = nat_eq a b
int_eq (pos a) (negsuc b) = false
int_eq (negsuc a) (pos b) = false
int_eq (negsuc a) (negsuc b) = nat_eq a b

pub int_eq_iff : (a b : ℤ) → (int_eq a b ≡ true) ↔ (a ≡ b)
int_eq_iff (pos a) (pos b) = ((λ h. ap pos ((nat_eq_iff a b).0 h)), λ h. ground arith)
int_eq_iff (pos a) (negsuc b) = ((λ h. cc), λ h. cc)
int_eq_iff (negsuc a) (pos b) = ((λ h. cc), λ h. cc)
int_eq_iff (negsuc a) (negsuc b) = ((λ h. ap negsuc ((nat_eq_iff a b).0 h)), λ h. ground arith)

abbrev pub is_negative : ℤ → Bool
is_negative (pos n) = false
is_negative (negsuc n) = true
