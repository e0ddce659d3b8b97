-- ===== src/Text/Decimal.antt =====
-- Decimal print of a count, and why two counts never print alike.
use Prim.Native.Char.{code}
use Prim.Native.String.{◌++◌ as str_append, count}
use text.Mathlib.TextLemmas.{length-append, append_cancel_left, append_inj}
use dibs_reservation_sniper.Prelude.{
  ℕ, zero, suc, ◌+◌, ◌/◌, ◌%◌, ◌<◌, ◌≤◌, ◌≡◌, ◌≢◌, refl, ap, sym, ◌∙◌, ◌⊎◌, inl, inr, String, arith,
  ltb, if◌then◌else◌, Bool-cases,
}

-- One character; only digits below ten are printed.
digit : ℕ → String
digit zero = "0"
digit (suc zero) = "1"
digit (suc (suc zero)) = "2"
digit (suc (suc (suc zero))) = "3"
digit (suc (suc (suc (suc zero)))) = "4"
digit (suc (suc (suc (suc (suc zero))))) = "5"
digit (suc (suc (suc (suc (suc (suc zero)))))) = "6"
digit (suc (suc (suc (suc (suc (suc (suc zero))))))) = "7"
digit (suc (suc (suc (suc (suc (suc (suc (suc zero)))))))) = "8"
digit _ = "9"

decimal_fuel : ℕ → ℕ → String
decimal_fuel zero n = digit n
decimal_fuel (suc f) n =
    let rest = str_append (decimal_fuel f (n / 10)) (digit (n % 10)) in
    if ltb n 10 then digit n else rest

-- A number has at most as many digits as its own value, so the fuel suffices.
unfoldable pub decimal : ℕ → String
unfolding decimal_fuel digit
decimal n = decimal_fuel n n

-- `f"{key}:{count}"`
unfoldable pub numbered : String → ℕ → String
numbered key count = str_append key (str_append ":" (decimal count))

count-digit : (n : ℕ) → count (digit n) ≡ 1
unfolding digit
count-digit zero = refl
count-digit (suc zero) = refl
count-digit (suc (suc zero)) = refl
count-digit (suc (suc (suc zero))) = refl
count-digit (suc (suc (suc (suc zero)))) = refl
count-digit (suc (suc (suc (suc (suc zero))))) = refl
count-digit (suc (suc (suc (suc (suc (suc zero)))))) = refl
count-digit (suc (suc (suc (suc (suc (suc (suc zero))))))) = refl
count-digit (suc (suc (suc (suc (suc (suc (suc (suc zero)))))))) = refl
count-digit _ = refl

digit_value : String → ℕ
digit_value String.[] = 0
digit_value (String.◌∷◌ c s) = code c

digit_value-digit : (n : ℕ) → n < 10 → digit_value (digit n) ≡ 48 + n
unfolding digit_value digit
digit_value-digit zero h = refl
digit_value-digit (suc zero) h = refl
digit_value-digit (suc (suc zero)) h = refl
digit_value-digit (suc (suc (suc zero))) h = refl
digit_value-digit (suc (suc (suc (suc zero)))) h = refl
digit_value-digit (suc (suc (suc (suc (suc zero))))) h = refl
digit_value-digit (suc (suc (suc (suc (suc (suc zero)))))) h = refl
digit_value-digit (suc (suc (suc (suc (suc (suc (suc zero))))))) h = refl
digit_value-digit (suc (suc (suc (suc (suc (suc (suc (suc zero)))))))) h = refl
digit_value-digit (suc (suc (suc (suc (suc (suc (suc (suc (suc zero))))))))) h = refl
digit_value-digit (suc (suc (suc (suc (suc (suc (suc (suc (suc (suc n)))))))))) h =
    absurd (omega arith)

digit_injective : (m n : ℕ) → m < 10 → n < 10 → digit m ≡ digit n → m ≡ n
digit_injective m n h k e =
    omega (arith, digit_value-digit m h, digit_value-digit n k, ap digit_value e)

count-decimal_fuel : (f n : ℕ) → 1 ≤ count (decimal_fuel f n)
unfolding decimal_fuel
count-decimal_fuel zero n = omega (arith, count-digit n)
count-decimal_fuel (suc f) n = elim (Bool-cases (ltb n 10)) [
  | inl e ↦ rw e (omega (arith, count-digit n))
  | inr e ↦ rw e (
      omega (arith, count-digit (n % 10), length-append (decimal_fuel f (n / 10)) (digit (n % 10))))
]

long-ne-short : (f k d m : ℕ) → str_append (decimal_fuel f k) (digit d) ≢ digit m
long-ne-short f k d m e = omega (
  arith,
  ap count e,
  count-digit m,
  count-digit d,
  count-decimal_fuel f k,
  length-append (decimal_fuel f k) (digit d),
)

-- Two prints that end in a digit agree before it and in it.
last_digits :
    (s t : String) (d e : ℕ)
    → str_append s (digit d) ≡ str_append t (digit e)
    → (s ≡ t) × (digit d ≡ digit e)
last_digits s t d e h = append_inj h (
    omega (
      arith,
      ap count h,
      count-digit d,
      count-digit e,
      length-append s (digit d),
      length-append t (digit e),
    ))

decimal_fuel-short : (f n : ℕ) → n < 10 → decimal_fuel f n ≡ digit n
unfolding decimal_fuel
decimal_fuel-short zero n h = refl
decimal_fuel-short (suc f) n h = ground arith

decimal_fuel-long :
    (f n : ℕ)
    → 10 ≤ n
    → decimal_fuel (suc f) n ≡ str_append (decimal_fuel f (n / 10)) (digit (n % 10))
unfolding decimal_fuel
decimal_fuel-long f n h = ground arith

-- A print is one digit, or the print of the other digits before the last one.
print_cases :
    (f n : ℕ)
    → n ≤ f
    → ((n < 10) × (decimal_fuel f n ≡ digit n))
      ⊎ ((g : ℕ) × (10 ≤ n)
          × (n / 10 ≤ g)
          × (decimal_fuel f n ≡ str_append (decimal_fuel g (n / 10)) (digit (n % 10))))
print_cases zero n h = inl (omega arith, decimal_fuel-short zero n (omega arith))
print_cases (suc f) n h = elim (Bool-cases (ltb n 10)) [
  | inl e ↦ inl (ground arith, decimal_fuel-short (suc f) n (ground arith))
  | inr e ↦ inr (f, ground arith, ground arith, decimal_fuel-long f n (ground arith))
]

-- The recursion is on a bound of the first number.
decimal_fuel_injective :
    (k f g m n : ℕ) → m < k → m ≤ f → n ≤ g → decimal_fuel f m ≡ decimal_fuel g n → m ≡ n
decimal_fuel_injective zero f g m n hk hf hg e = elim hk [ ]
decimal_fuel_injective (suc k) f g m n hk hf hg e = elim (print_cases f m hf) [
  | inl (h, p) ↦ elim (print_cases g n hg) [
    | inl (h', p') ↦ digit_injective m n h h' (sym p ∙ e ∙ p')
    | inr (g', h', l, p') ↦ absurd (long-ne-short g' (n / 10) (n % 10) m (sym p' ∙ sym e ∙ p))
  ]
  | inr (f', h, l, p) ↦ elim (print_cases g n hg) [
    | inl (h', p') ↦ absurd (long-ne-short f' (m / 10) (m % 10) n (sym p ∙ e ∙ p'))
    | inr (g', h', l', p') ↦
        let parts = last_digits _ _ (m % 10) (n % 10) (sym p ∙ e ∙ p') in
        let high = decimal_fuel_injective k f' g' (m / 10) (n / 10) (omega arith) l l' parts.0 in
        omega (arith, high, digit_injective (m % 10) (n % 10) (omega arith) (omega arith) parts.1)
  ]
]

pub decimal_injective : (m n : ℕ) → decimal m ≡ decimal n → m ≡ n
unfolding decimal
decimal_injective m n =
    decimal_fuel_injective (suc m) m n m n (omega arith) (omega arith) (omega arith)

-- A key numbered by two counts gives two texts.
pub numbered_injective : (key : String) (m n : ℕ) → numbered key m ≡ numbered key n → m ≡ n
unfolding numbered
numbered_injective key m n e =
    decimal_injective m n (append_cancel_left ":" _ _ (append_cancel_left key _ _ e))

pub numbered-suc-ne : (key : String) (n : ℕ) → numbered key (n + 1) ≢ numbered key n
numbered-suc-ne key n e = omega (arith, numbered_injective key (n + 1) n e)

numbered_test : numbered "w" 1203 ≡ "w:1203"
unfolding numbered decimal
numbered_test = refl
