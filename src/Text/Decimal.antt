-- ===== src/Text/Decimal.antt =====
-- `fmt.Sprintf("%d", n)` for a number that is not negative.
use Prim.Native.Nat.{◌/◌, ◌%◌}
use play_bin.Base.{
  ℕ, zero, suc, ◌+◌, ◌<◌, Char, code, String, ltb, if◌then◌else◌, ◌<>◌, ◌≡◌, refl, arith,
}

abbrev pub digit : ℕ → String
digit zero = "0"
digit (suc zero) = "1"
digit (suc (suc zero)) = "2"
digit (suc (suc (suc zero))) = "3"
digit (suc (suc (suc (suc zero)))) = "4"
digit (suc (suc (suc (suc (suc zero))))) = "5"
digit (suc (suc (suc (suc (suc (suc zero)))))) = "6"
digit (suc (suc (suc (suc (suc (suc (suc zero))))))) = "7"
digit (suc (suc (suc (suc (suc (suc (suc (suc zero)))))))) = "8"
digit _ = "9"

-- The digits of a number; as many rounds as the number has digits are enough.
digits : ℕ → ℕ → String
digits zero n = ""
digits (suc rounds) n =
    let front = digits rounds (n / 10) in if ltb n 10 then digit n else front <> digit (n % 10)

unfoldable pub decimal : ℕ → String
unfolding digits
decimal n = digits (suc n) n

digit-char : (n : ℕ) → n < 10 → (c : Char) × (digit n ≡ String.◌∷◌ c "") × (code c ≡ 48 + n)
digit-char zero h = ("0", refl, refl)
digit-char (suc zero) h = ("1", refl, refl)
digit-char (suc (suc zero)) h = ("2", refl, refl)
digit-char (suc (suc (suc zero))) h = ("3", refl, refl)
digit-char (suc (suc (suc (suc zero)))) h = ("4", refl, refl)
digit-char (suc (suc (suc (suc (suc zero))))) h = ("5", refl, refl)
digit-char (suc (suc (suc (suc (suc (suc zero)))))) h = ("6", refl, refl)
digit-char (suc (suc (suc (suc (suc (suc (suc zero))))))) h = ("7", refl, refl)
digit-char (suc (suc (suc (suc (suc (suc (suc (suc zero)))))))) h = ("8", refl, refl)
digit-char (suc (suc (suc (suc (suc (suc (suc (suc (suc zero))))))))) h = ("9", refl, refl)
digit-char (suc (suc (suc (suc (suc (suc (suc (suc (suc (suc n)))))))))) h = absurd (omega arith)

-- A number below ten is one character.
pub decimal-char : (n : ℕ) → n < 10 → (c : Char) × (decimal n ≡ String.◌∷◌ c "") × (code c ≡ 48 + n)
unfolding decimal digits
decimal-char n h = let (c, same, place) = digit-char n h in (c, ground (arith, same), place)

decimal_tests : (decimal 0 ≡ "0") × (decimal 7 ≡ "7") × (decimal 1050 ≡ "1050")
unfolding decimal digits
decimal_tests = (refl, refl, refl)
