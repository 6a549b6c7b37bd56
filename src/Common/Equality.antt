-- ===== src/Common/Equality.antt =====
-- Go's `==` on strings and integers, as one operator over an interface.
use Prim.Native.Nat.{ℕ}
use Prim.Native.String.{String}
use mathlib.Core.Path.{◌≡◌}
use mathlib.Core.Logic.{◌↔◌}
use mathlib.Core.Bool.{Bool, true, not}
use text.Mathlib.Text.{◌==◌ as str_beq}
use text.Mathlib.TextEquality.{eq_iff}
use cyntr.Common.Tests.{nat_beq, nat_beq_iff}

pub record HasEq {ℓ} (T : Type ℓ) : Type ℓ where
  pub equals : T → T → Bool
  pub equals_iff : (x y : T) → (equals x y ≡ true) ↔ (x ≡ y)

infix 50 ◌==◌
infix 50 ◌!=◌
abbrev pub ◌==◌ {ℓ} : {T : Type ℓ} ⦃e : HasEq T⦄ → T → T → Bool
◌==◌ ⦃e⦄ = e.equals

abbrev pub ◌!=◌ {ℓ} : {A : Type ℓ} ⦃e : HasEq A⦄ → A → A → Bool
◌!=◌ ⦃e⦄ a b = not (e.equals a b)

instance abbrev pub nat_eq : HasEq ℕ
nat_eq = record { equals = nat_beq; equals_iff = nat_beq_iff }

instance abbrev pub string_eq : HasEq String
string_eq = record { equals = str_beq; equals_iff = eq_iff }

pub str_iff : (a b : String) → ((a == b) ≡ true) ↔ (a ≡ b)
str_iff = eq_iff
