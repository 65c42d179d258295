-- ===== src/Common/Equality.antt =====
-- Equality as an interface, its instances, and text as a list of code points.
use Prim.Native.Nat.{ℕ, compare, Ordering}
use Prim.Native.Char.{code}
use Prim.Native.String.{String}
use mathlib.Core.Path.{◌≡◌, refl}
use mathlib.Core.Logic.{◌↔◌}
use mathlib.Core.Bool.{Bool, true, false, ◌&&◌}
use mathlib.Core.List.{List, [], ◌∷◌}
use native.Mathlib.Omega.{arith}

pub record Comparable {ℓ} (A : Type ℓ) : Type ℓ where
  pub same : A → A → Bool
  pub same_iff : (x y : A) → (same x y ≡ true) ↔ (x ≡ y)

abbrev pub ◌==◌ {ℓ} : {A : Type ℓ} ⦃c : Comparable A⦄ → A → A → Bool
◌==◌ ⦃c⦄ x y = c.same x y

infix 50 ◌==◌
abbrev pub beq_ℕ : ℕ → ℕ → Bool
beq_ℕ a b = elim (compare a b) [ Ordering.eq ↦ true | _ ↦ false ]

pub beq_ℕ_iff : (a b : ℕ) → (beq_ℕ a b ≡ true) ↔ (a ≡ b)
beq_ℕ_iff a b = ground arith

instance abbrev pub nat_eq : Comparable ℕ
nat_eq = record { same_iff = beq_ℕ_iff; same = beq_ℕ }

-- A Python `str` is the list of its code points.
abbrev pub Text : Type 0
Text = List ℕ

abbrev pub codes : String → Text
codes String.[] = []
codes (String.◌∷◌ c s) = code c ∷ codes s

unfoldable pub beq_text : Text → Text → Bool
beq_text [] [] = true
beq_text [] (d ∷ t) = false
beq_text (c ∷ s) [] = false
beq_text (c ∷ s) (d ∷ t) = beq_ℕ c d && beq_text s t

pub beq_text_iff : (s t : Text) → (beq_text s t ≡ true) ↔ (s ≡ t)
unfolding beq_text
beq_text_iff [] [] = ground arith
beq_text_iff [] (d ∷ t) = ground arith
beq_text_iff (c ∷ s) [] = ground arith
beq_text_iff (c ∷ s) (d ∷ t) = ground (arith, beq_text_iff s t)

instance abbrev pub text_eq : Comparable Text
text_eq = record { same_iff = beq_text_iff; same = beq_text }

pub ==_refl {ℓ} : {A : Type ℓ} ⦃c : Comparable A⦄ (a : A) → (a == a) ≡ true
==_refl ⦃c⦄ a = (c.same_iff a a).1 refl

pub ==_sym {ℓ} : {A : Type ℓ} ⦃c : Comparable A⦄ (a b : A) → (a == b) ≡ (b == a)
==_sym ⦃c⦄ a b = ground (arith, c.same_iff a b, c.same_iff b a)
