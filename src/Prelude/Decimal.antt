-- ===== src/Prelude/Decimal.antt =====
-- Unsigned integers read from texts, and that what `display` writes is read back.
use Prim.Native.Char.{Char, code}
use Prim.Native.String.append
use Prim.Native.String.count
use Prim.Native.String.{String, count}
use Prim.Native.Nat.pow
use Prim.Native.Nat.{ℕ, zero, suc, ◌+◌, ◌-◌, ◌*◌, ◌/◌, ◌%◌, ◌^◌, ◌<◌, ◌≤◌}
use native.Mathlib.Omega.{arith}
use mathlib.Core.Bool.{true, ◌&&◌}
use mathlib.Core.Option.{Option, none, some}
use mathlib.Core.Logic.{inl, inr}
use mathlib.Core.Path.{◌≡◌, refl, ap, ◌∙◌, subst}
use text.Mathlib.TextLemmas.{length-append, append_assoc, append-nil}
use mill.Prelude.Tests.{◌==◌, leb, ltb, if◌then◌else◌, Bool-cases}
use mill.Prelude.Text.{◌<>◌, display, display_fuel, digit}

-- Digits to the end, with the checks for an overflow.
read_digits : ℕ → String → ℕ → Option ℕ
read_digits most String.[] n = some n
read_digits most (String.◌∷◌ c s) n =
    let next = n * 10 + (code c - 48) in
    let rest = read_digits most s next in
    if leb 48 (code c) && leb (code c) 57 && leb next most then rest else none

-- `s.parse()` at an unsigned type, by its largest number; a sign + is skipped before a digit.
unfoldable pub parse_uint : ℕ → String → Option ℕ
unfolding read_digits
parse_uint most String.[] = none
parse_uint most (String.◌∷◌ c String.[]) = read_digits most (String.◌∷◌ c String.[]) 0
parse_uint most (String.◌∷◌ c (String.◌∷◌ d s)) =
    if code c == 43
    then read_digits most (String.◌∷◌ d s) 0
    else read_digits most (String.◌∷◌ c (String.◌∷◌ d s)) 0

-- A digit is one character.
digit-IsChar : (d : ℕ) → d < 10 → (c : Char) × (digit d ≡ String.◌∷◌ c "") × (code c ≡ 48 + d)
unfolding digit
digit-IsChar zero h = ("0", refl, refl)
digit-IsChar (suc zero) h = ("1", refl, refl)
digit-IsChar (suc (suc zero)) h = ("2", refl, refl)
digit-IsChar (suc (suc (suc zero))) h = ("3", refl, refl)
digit-IsChar (suc (suc (suc (suc zero)))) h = ("4", refl, refl)
digit-IsChar (suc (suc (suc (suc (suc zero))))) h = ("5", refl, refl)
digit-IsChar (suc (suc (suc (suc (suc (suc zero)))))) h = ("6", refl, refl)
digit-IsChar (suc (suc (suc (suc (suc (suc (suc zero))))))) h = ("7", refl, refl)
digit-IsChar (suc (suc (suc (suc (suc (suc (suc (suc zero)))))))) h = ("8", refl, refl)
digit-IsChar (suc (suc (suc (suc (suc (suc (suc (suc (suc zero))))))))) h = ("9", refl, refl)
digit-IsChar (suc (suc (suc (suc (suc (suc (suc (suc (suc (suc n)))))))))) h = absurd (omega arith)

read_digits-digit :
    (most d n : ℕ) (s : String)
    → d < 10
    → n * 10 + d ≤ most
    → read_digits most (digit d <> s) n ≡ read_digits most s (n * 10 + d)
unfolding read_digits
read_digits-digit most d n s h k =
    let (c, one, at) = digit-IsChar d h in
    let front : digit d <> s ≡ String.◌∷◌ c s = cc (one, append.cons c "" s, append.nil s) in
    let value : n * 10 + (code c - 48) ≡ n * 10 + d = omega (arith, at) in
    let fits : (leb 48 (code c) && leb (code c) 57 && leb (n * 10 + (code c - 48)) most) ≡ true =
      ground (arith, at) in
    ap (λ t. read_digits most t n) front ∙ rw (fits, value) refl

read_digits-display :
    (f most n : ℕ) (s : String)
    → n < 10 ^ f
    → n ≤ most
    → read_digits most (display_fuel f n <> s) 0 ≡ read_digits most s n
unfolding display_fuel
read_digits-display zero most n s h k =
    (let none_left : n ≡ 0 = omega (arith, h) in rw (append.nil s, none_left) refl)
read_digits-display (suc f) most n s h k = elim (Bool-cases (ltb n 10)) [
  | inl e ↦
      (rw (e) (
        read_digits-digit most n 0 s (ground (arith, e)) (omega (arith, k))
        ∙ ap (read_digits most s) (omega arith)))
  | inr e ↦
      (rw (e, append_assoc (display_fuel f (n / 10)) (digit (n % 10)) s)
        (read_digits-display f most (n / 10) (digit (n % 10) <> s) (omega (arith, h, pow.suc 10 f))
            (omega (arith, k))
          ∙ read_digits-digit most (n % 10) (n / 10) s (omega arith) (omega (arith, k))
          ∙ ap (read_digits most s) (omega arith)))
]

display_fuel-count : (f n : ℕ) → 0 < count (display_fuel (suc f) n)
unfolding display_fuel
display_fuel-count f n = elim (Bool-cases (ltb n 10)) [
  | inl e ↦
      let (c, one, at) = digit-IsChar n (ground (arith, e)) in
      rw (e, one, count.cons c "") (omega arith)
  | inr e ↦
      let (c, one, at) = digit-IsChar (n % 10) (omega arith) in
      rw (e, length-append (display_fuel f (n / 10)) (digit (n % 10)), one, count.cons c "")
        (omega arith)
]

-- Digits that are read to a number do not start with a sign.
parse_uint-digits :
    (most n : ℕ) (s : String)
    → 0 < count s
    → read_digits most s 0 ≡ some n
    → parse_uint most s ≡ some n
unfolding parse_uint read_digits
parse_uint-digits most n String.[] k h = absurd (omega (arith, k))
parse_uint-digits most n (String.◌∷◌ c String.[]) k h = h
parse_uint-digits most n (String.◌∷◌ c (String.◌∷◌ d s)) k h = elim (Bool-cases (code c == 43)) [
  | inl e ↦ absurd (ground (arith, h, e))
  | inr e ↦ rw (e) h
]

-- What is written is read back, where it fits.
pub parse_uint-display :
    (most n : ℕ) → n ≤ most → n < 10 ^ 20 → parse_uint most (display n) ≡ some n
unfolding display
parse_uint-display most n k h = parse_uint-digits most n _ (display_fuel-count 19 n) (
    subst (λ t. read_digits most t 0 ≡ some n) (append-nil (display_fuel 20 n))
      (unfold read_digits in read_digits-display 20 most n "" h k))
