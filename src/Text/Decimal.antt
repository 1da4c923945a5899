-- ===== src/Text/Decimal.antt =====
-- `%d` of package fmt: the decimal digits of an integer.
use ragkb.Base.{
  ℕ, zero, suc, ◌+◌, ◌-◌, ◌*◌, ◌/◌, ◌%◌, ◌<◌, ◌≡◌, ◌≢◌, refl, sym, ap, [], ◌∷◌, ◌++◌, arith, ℤ, pos,
  negsuc, ltb, Bool-cases, inl, inr, if◌then◌else◌, All,
}
use ragkb.Text.{Text}
use ragkb.Text.Split.{Lacks}

-- The digits of `n`, the highest first; a fuel above `n` is enough.
digits_fuel : ℕ → ℕ → Text
digits_fuel zero n = []
digits_fuel (suc f) n =
    let more = digits_fuel f (n / 10) ++ (48 + n % 10) ∷ [] in
    if ltb n 10 then (48 + n) ∷ [] else more

unfoldable pub digits : ℕ → Text
unfolding digits_fuel
digits n = digits_fuel (suc n) n

unfoldable pub decimal : ℤ → Text
unfolding digits
decimal (pos n) = digits n
decimal (negsuc n) = b'-' ∷ digits (suc n)

append_not_empty : (cs : Text) (c : ℕ) → cs ++ c ∷ [] ≢ []
append_not_empty [] c e = absurd (ground arith)
append_not_empty (d ∷ cs) c e = absurd (ground arith)

pub digits_not_empty : (n : ℕ) → digits n ≢ []
unfolding digits digits_fuel
digits_not_empty n e = elim (Bool-cases (ltb n 10)) [
  | inl one ↦ absurd (ground arith)
  | inr more ↦ append_not_empty (digits_fuel n (n / 10)) (48 + n % 10) (ground arith)
]

-- The number that a row of digits stands for, read after `acc`.
unfoldable pub value : ℕ → Text → ℕ
value acc [] = acc
value acc (c ∷ cs) = value (acc * 10 + (c - 48)) cs

value-snoc : (acc c : ℕ) (cs : Text) → value acc (cs ++ c ∷ []) ≡ value acc cs * 10 + (c - 48)
unfolding value
value-snoc acc c [] = refl
value-snoc acc c (d ∷ cs) = value-snoc (acc * 10 + (d - 48)) c cs

value-digits_fuel : (f n : ℕ) → n < f → value 0 (digits_fuel f n) ≡ n
unfolding digits_fuel value
value-digits_fuel zero n h = elim h [ ]
value-digits_fuel (suc f) n h =
    ground
      (arith, value-snoc 0 (48 + n % 10) (digits_fuel f (n / 10)), value-digits_fuel f (n / 10))

pub value-digits : (n : ℕ) → value 0 (digits n) ≡ n
unfolding digits
value-digits n = value-digits_fuel (suc n) n (omega arith)

-- A byte that stands in no decimal is no digit.
abbrev pub IsDigit : ℕ → Type 0
IsDigit c = (47 < c) × (c < 58)

All-snoc : (P : ℕ → Type 0) (cs : Text) (c : ℕ) → All P cs → P c → All P (cs ++ c ∷ [])
All-snoc P [] c h p = (p, tt)
All-snoc P (d ∷ cs) c h p = (h.0, All-snoc P cs c h.1 p)

digits_fuel-IsDigit : (f n : ℕ) → All IsDigit (digits_fuel f n)
unfolding digits_fuel
digits_fuel-IsDigit zero n = tt
digits_fuel-IsDigit (suc f) n = ground (
  arith,
  All-snoc IsDigit (digits_fuel f (n / 10)) (48 + n % 10) (digits_fuel-IsDigit f (n / 10))
      (omega arith),
)

pub digits-IsDigit : (n : ℕ) → All IsDigit (digits n)
unfolding digits
digits-IsDigit n = digits_fuel-IsDigit (suc n) n

-- A minus sign does not begin a row of digits.
minus_not_digits : (n : ℕ) (cs : Text) → digits n ≢ b'-' ∷ cs
minus_not_digits n cs e =
    let h : All IsDigit (b'-' ∷ cs) = rw e at (digits-IsDigit n) in absurd (omega arith)

digits-injective : (m n : ℕ) → digits m ≡ digits n → m ≡ n
digits-injective m n e = omega (arith, value-digits m, value-digits n, ap (value 0) e)

pub decimal-injective : (a b : ℤ) → decimal a ≡ decimal b → a ≡ b
unfolding decimal
decimal-injective (pos m) (pos n) e = ap pos (digits-injective m n e)
decimal-injective (pos m) (negsuc n) e = absurd (minus_not_digits m _ e)
decimal-injective (negsuc m) (pos n) e = absurd (minus_not_digits n _ (sym e))
decimal-injective (negsuc m) (negsuc n) e =
    let tails : digits (suc m) ≡ digits (suc n) = cc in
    let same = digits-injective (suc m) (suc n) tails in ap negsuc (omega arith)

digits-Lacks : (c : ℕ) → ¬ IsDigit c → (cs : Text) → All IsDigit cs → Lacks c cs
digits-Lacks c h [] all = tt
digits-Lacks c h (d ∷ cs) all = (λ e. h (rw (← e) all.0), digits-Lacks c h cs all.1)

-- No byte but a digit or the minus sign stands in a decimal.
pub decimal-Lacks : (c : ℕ) (a : ℤ) → ¬ IsDigit c → c ≢ b'-' → Lacks c (decimal a)
unfolding decimal
decimal-Lacks c (pos n) h m = digits-Lacks c h (digits n) (digits-IsDigit n)
decimal-Lacks c (negsuc n) h m =
    (λ e. m (sym e), digits-Lacks c h (digits (suc n)) (digits-IsDigit (suc n)))
