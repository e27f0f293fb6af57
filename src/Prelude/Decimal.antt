-- ===== src/Prelude/Decimal.antt =====
-- `str(n)` of an int that is not negative: its decimal digits, which determine it.
use Prim.Native.Nat
use Prim.Native.Nat.{ℕ, suc, ◌+◌, ◌*◌, ◌/◌, ◌%◌, ◌-◌, ◌<◌}
use Prim.Native.Char.{Char, code}
use Prim.Native.String.{String, char_at}
use mathlib.Core.Path.{◌≡◌, refl, sym, ap, ◌∙◌}
use mathlib.Core.Bool.{Bool, true, false}
use native.Mathlib.Omega.{arith}
use connexion.Prelude.Tests.{ltb}

abbrev digit : ℕ → Char
digit d = char_at "0123456789" d

abbrev digits_step : Bool → ℕ → String → (ℕ → String → String) → String
digits_step true n acc continue = acc
digits_step false n acc continue = continue (n / 10) acc

-- The digits of a number before those that are there; the fuel is more than the number.
digits_of : ℕ → ℕ → String → String
digits_of Nat.ℕ.zero n acc = acc
digits_of (Nat.ℕ.suc fuel) n acc =
    digits_step (ltb n 10) n (String.◌∷◌ (digit (n % 10)) acc) (digits_of fuel)

unfoldable pub decimal : ℕ → String
unfolding digits_of
decimal n = digits_of (suc n) n ""

-- the number that digits stand for, after those that are read
value : ℕ → String → ℕ
value n String.[] = n
value n (String.◌∷◌ c s) = value (n * 10 + (code c - 48)) s

digit-code : (d : ℕ) → d < 10 → code (digit d) ≡ 48 + d
digit-code Nat.ℕ.zero h = refl
digit-code (Nat.ℕ.suc Nat.ℕ.zero) h = refl
digit-code (Nat.ℕ.suc (Nat.ℕ.suc Nat.ℕ.zero)) h = refl
digit-code (Nat.ℕ.suc (Nat.ℕ.suc (Nat.ℕ.suc Nat.ℕ.zero))) h = refl
digit-code (Nat.ℕ.suc (Nat.ℕ.suc (Nat.ℕ.suc (Nat.ℕ.suc Nat.ℕ.zero)))) h = refl
digit-code (Nat.ℕ.suc (Nat.ℕ.suc (Nat.ℕ.suc (Nat.ℕ.suc (Nat.ℕ.suc Nat.ℕ.zero))))) h = refl
digit-code (Nat.ℕ.suc (Nat.ℕ.suc (Nat.ℕ.suc (Nat.ℕ.suc (Nat.ℕ.suc (Nat.ℕ.suc Nat.ℕ.zero)))))) h =
    refl
digit-code
      (Nat.ℕ.suc (Nat.ℕ.suc (Nat.ℕ.suc (Nat.ℕ.suc (Nat.ℕ.suc (Nat.ℕ.suc (Nat.ℕ.suc Nat.ℕ.zero)))))))
      h =
    refl
digit-code
      (Nat.ℕ.suc (
        Nat.ℕ.suc
          (Nat.ℕ.suc (Nat.ℕ.suc (Nat.ℕ.suc (Nat.ℕ.suc (Nat.ℕ.suc (Nat.ℕ.suc Nat.ℕ.zero))))))))
      h =
    refl
digit-code
      (Nat.ℕ.suc (
        Nat.ℕ.suc (
          Nat.ℕ.suc
            (Nat.ℕ.suc (Nat.ℕ.suc (Nat.ℕ.suc (Nat.ℕ.suc (Nat.ℕ.suc (Nat.ℕ.suc Nat.ℕ.zero)))))))))
      h =
    refl
digit-code
      (Nat.ℕ.suc (
        Nat.ℕ.suc (
          Nat.ℕ.suc
            (Nat.ℕ.suc (Nat.ℕ.suc (Nat.ℕ.suc (Nat.ℕ.suc (Nat.ℕ.suc (Nat.ℕ.suc (Nat.ℕ.suc d))))))))))
      h =
    absurd (omega (arith, h))

value-digit :
    (n d : ℕ) (s : String) → d < 10 → value n (String.◌∷◌ (digit d) s) ≡ value (n * 10 + d) s
unfolding value
value-digit n d s h = ap (λ k. value k s) (omega (arith, digit-code d h))

value-digits_of :
    (fuel n : ℕ) (acc : String) → n < fuel → value 0 (digits_of fuel n acc) ≡ value n acc
unfolding digits_of
value-digits_of Nat.ℕ.zero n acc h = absurd (omega (arith, h))
value-digits_of (Nat.ℕ.suc fuel) n acc h = go (ltb n 10) refl (value-digits_of fuel)
  where
    go :
        (b : Bool)
        → ltb n 10 ≡ b
        → ((k : ℕ) (t : String) → k < fuel → value 0 (digits_of fuel k t) ≡ value k t)
        → value 0 (digits_step b n (String.◌∷◌ (digit (n % 10)) acc) (digits_of fuel)) ≡ value n acc
    go true small ih =
        value-digit 0 (n % 10) acc (omega arith) ∙ ap (λ k. value k acc) (ground arith)
    go false large ih =
        ih (n / 10) (String.◌∷◌ (digit (n % 10)) acc) (ground arith)
        ∙ (value-digit (n / 10) (n % 10) acc (omega arith) ∙ ap (λ k. value k acc) (omega arith))

value-decimal : (n : ℕ) → value 0 (decimal n) ≡ n
unfolding decimal value
value-decimal n = value-digits_of (suc n) n "" (omega arith)

-- Numbers with the same text are the same.
pub decimal-injective : (m n : ℕ) → decimal m ≡ decimal n → m ≡ n
decimal-injective m n e = sym (value-decimal m) ∙ (ap (value 0) e ∙ value-decimal n)
