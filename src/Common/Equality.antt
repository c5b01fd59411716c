-- ===== src/Common/Equality.antt =====
-- Decidable equality as an interface: the test and the law that it decides `≡`.
use Prim.Native.Nat.{ℕ}
use Prim.Native.String.{String}
use mathlib.Core.Path.{◌≡◌, refl}
use mathlib.Core.Logic.{◌↔◌}
use mathlib.Core.Bool.{Bool, true, false, ◌&&◌}
use mathlib.Core.Option.{Option, none, some}
use native.Mathlib.Omega.{arith}
use text.Mathlib.Text.{◌==◌ as str_beq}
use text.Mathlib.TextEquality.{eq_iff}
use iot_gathering.Common.Tests.{nat_beq, nat_beq_iff}
use iot_gathering.Common.Int.{ℤ, int_beq, int_beq_iff}

pub record Eq {ℓ} (K : Type ℓ) : Type ℓ where
  pub beq : K → K → Bool
  pub beq_iff : (j k : K) → (beq j k ≡ true) ↔ (j ≡ k)

abbrev pub option_beq {ℓ} : {A : Type ℓ} (e : Eq A) → Option A → Option A → Bool
option_beq e none none = true
option_beq e (some a) (some b) = e.beq a b
option_beq e _ _ = false

pub option_beq_iff {ℓ} :
    {A : Type ℓ} (e : Eq A) (a b : Option A) → (option_beq e a b ≡ true) ↔ (a ≡ b)
option_beq_iff e none none = ((λ _. refl), λ _. refl)
option_beq_iff e (some a) (some b) = ground (arith, e.beq_iff a b)
option_beq_iff e none (some b) = ground arith
option_beq_iff e (some a) none = ground arith

instance abbrev pub option_eq {ℓ} : {A : Type ℓ} ⦃e : Eq A⦄ → Eq (Option A)
option_eq ⦃e⦄ = record { beq = option_beq e; beq_iff = option_beq_iff e }

abbrev pub pair_beq {ℓ κ} : {A : Type ℓ} {B : Type κ} (e : Eq A) (f : Eq B) → A × B → A × B → Bool
pair_beq e f (a, b) (c, d) = e.beq a c && f.beq b d

pub pair_beq_iff {ℓ κ} :
    {A : Type ℓ} {B : Type κ} (e : Eq A) (f : Eq B) (p q : A × B)
    → (pair_beq e f p q ≡ true) ↔ (p ≡ q)
pair_beq_iff e f (a, b) (c, d) = ground (arith, e.beq_iff a c, f.beq_iff b d)

instance abbrev pub pair_eq {ℓ κ} : {A : Type ℓ} {B : Type κ} ⦃e : Eq A⦄ ⦃f : Eq B⦄ → Eq (A × B)
pair_eq ⦃e⦄ ⦃f⦄ = record { beq = pair_beq e f; beq_iff = pair_beq_iff e f }

instance abbrev pub int_eq : Eq ℤ
int_eq = record { beq = int_beq; beq_iff = int_beq_iff }

instance abbrev pub string_eq : Eq String
string_eq = record { beq_iff = eq_iff; beq = str_beq }

instance abbrev pub nat_eq : Eq ℕ
nat_eq = record { beq_iff = nat_beq_iff; beq = nat_beq }

pub beq_self {ℓ} : {A : Type ℓ} (e : Eq A) (a : A) → e.beq a a ≡ true
beq_self e a = (e.beq_iff a a).1 refl

infix 50 ◌==◌
abbrev pub ◌==◌ {ℓ} : {K : Type ℓ} ⦃e : Eq K⦄ → (j k : K) → Bool
◌==◌ ⦃e⦄ j k = e.beq j k
