-- ===== src/Prelude/Text.antt =====
-- Texts: decidable equality, and the decimal `Display` of unsigned integers.
use Prim.Native.Nat.{ℕ, zero, suc, ◌/◌, ◌%◌}
use Prim.Native.String
use Prim.Native.String.{String}
use mathlib.Core.Bool.{Bool, true, false}
use mathlib.Core.Logic.{◌↔◌}
use mathlib.Core.Path.{◌≡◌, refl}
use text.Mathlib.Text.{◌==◌ as text_eq}
use text.Mathlib.TextEquality.{eq_iff}
use native.Mathlib.Decide.{ℕ_discrete}
use mill.Prelude.Maps.{Key}
use mill.Prelude.Tests.{ltb, if◌then◌else◌}

abbrev pub str_eq : String → String → Bool
str_eq = text_eq

pub str_eq_iff : (s t : String) → (str_eq s t ≡ true) ↔ (s ≡ t)
str_eq_iff = eq_iff

dec_by_test {ℓ} : {P : Type ℓ} (b : Bool) → ((b ≡ true) ↔ P) → Dec P
dec_by_test true h = yes (h.0 refl)
dec_by_test false h = no (λ p. cc (h.1 p))

unfoldable pub string_discrete : Discrete String
unfolding dec_by_test
string_discrete s t = dec_by_test (text_eq s t) (eq_iff s t)

instance abbrev pub string_key : Key String
string_key = record { dec = string_discrete }

instance abbrev pub nat_key : Key ℕ
nat_key = record { dec = ℕ_discrete }

infixr 65 ◌<>◌
abbrev pub ◌<>◌ : String → String → String
s <> t = String.◌++◌ s t

unfoldable pub digit : ℕ → String
digit zero = "0"
digit (suc zero) = "1"
digit (suc (suc zero)) = "2"
digit (suc (suc (suc zero))) = "3"
digit (suc (suc (suc (suc zero)))) = "4"
digit (suc (suc (suc (suc (suc zero))))) = "5"
digit (suc (suc (suc (suc (suc (suc zero)))))) = "6"
digit (suc (suc (suc (suc (suc (suc (suc zero))))))) = "7"
digit (suc (suc (suc (suc (suc (suc (suc (suc zero)))))))) = "8"
digit _ = "9"

-- The fuel is the number of digits at most; a number below 2 ^ 64 has 20.
unfoldable pub display_fuel : ℕ → ℕ → String
unfolding digit
display_fuel zero n = ""
display_fuel (suc f) n =
    let front = display_fuel f (n / 10) in if ltb n 10 then digit n else front <> digit (n % 10)

-- `{}` on a `u16`, `u32` or `u64`.
unfoldable pub display : ℕ → String
unfolding display_fuel
display n = display_fuel 20 n

display_u64 : display 18446744073709551615 ≡ "18446744073709551615"
unfolding display
display_u64 = refl
