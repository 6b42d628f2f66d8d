-- ===== src/Common/Keys.antt =====
-- Types whose values a Go map compares as keys.
use Prim.Native.Nat.{ℕ}
use Prim.Native.String.{String}
use mathlib.Core.Path.{◌≡◌}
use mathlib.Core.Bool.{Bool, true}
use mathlib.Core.Logic.{◌↔◌}
use text.Mathlib.Text.{◌==◌ as str_eq}
use text.Mathlib.TextEquality.{eq_iff}
use gress.Common.Tests.{◌==◌ as nat_beq, ==_iff}
use gress.Common.Int.{ℤ, eqb_ℤ, eqb_ℤ_iff}

pub record Key {ℓ} (K : Type ℓ) : Type ℓ where
  pub beq : K → K → Bool
  pub beq_iff : (a b : K) → (beq a b ≡ true) ↔ (a ≡ b)

instance abbrev pub nat_key : Key ℕ
nat_key = record { beq = nat_beq; beq_iff = ==_iff }

instance abbrev pub int_key : Key ℤ
int_key = record { beq = eqb_ℤ; beq_iff = eqb_ℤ_iff }

instance abbrev pub string_key : Key String
string_key = record { beq = str_eq; beq_iff = eq_iff }
