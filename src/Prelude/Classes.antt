-- ===== src/Prelude/Classes.antt =====
-- Equality tests as an interface: the keys of every map and the items of every search have one.
use Prim.Native.Nat.{ℕ}
use Prim.Native.String.{String}
use mathlib.Core.Path.{◌≡◌}
use mathlib.Core.Logic.{◌↔◌}
use mathlib.Core.Bool.{Bool, true, ◌&&◌}
use native.Mathlib.Omega.{arith}
use text.Mathlib.Text.{◌==◌ as str_beq}
use text.Mathlib.TextEquality.{eq_iff}
use udp_director.Prelude.Tests.{nat_beq, nat_beq_iff}

pub record HasEquality {ℓ} (A : Type ℓ) : Type ℓ where
  pub same : A → A → Bool
  pub same_iff : (a b : A) → (same a b ≡ true) ↔ (a ≡ b)

abbrev pub ◌==◌ {ℓ} : {K : Type ℓ} ⦃i : HasEquality K⦄ → K → K → Bool
◌==◌ ⦃i⦄ a b = i.same a b

infix 50 ◌==◌
instance abbrev pub nat_eq : HasEquality ℕ
nat_eq = record { same = nat_beq; same_iff = nat_beq_iff }

instance abbrev pub string_eq : HasEquality String
string_eq = record { same = str_beq; same_iff = eq_iff }

abbrev pub pair_beq {ℓ κ} :
    {A : Type ℓ} {B : Type κ} ⦃d : HasEquality A⦄ ⦃e : HasEquality B⦄ → A × B → A × B → Bool
pair_beq (a, b) (c, d) = (a == c) && (b == d)

pub pair_beq_iff {ℓ κ} :
    {A : Type ℓ} {B : Type κ} ⦃d : HasEquality A⦄ ⦃e : HasEquality B⦄ (p q : A × B)
    → (pair_beq p q ≡ true) ↔ (p ≡ q)
pair_beq_iff ⦃d⦄ ⦃e⦄ (a, b) (a', b') = ground (arith, d.same_iff a a', e.same_iff b b')

instance abbrev pub pair_eq {ℓ κ} :
    {A : Type ℓ} {B : Type κ} ⦃d : HasEquality A⦄ ⦃e : HasEquality B⦄ → HasEquality (A × B)
pair_eq = record { same = pair_beq; same_iff = pair_beq_iff }
