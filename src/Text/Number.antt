-- ===== src/Text/Number.antt =====
-- `strconv.ParseInt(s, 10, 64)`, which `strconv.Atoi` is too where an `int` has 64 bits.
use ragkb.Base.{
  ℕ, zero, suc, ◌+◌, ◌-◌, ◌*◌, ◌^◌, ◌≤◌, ◌<◌, ◌≡◌, ◌≢◌, refl, ◌∙◌, Bool, true, false, ◌&&◌, ◌==◌,
  leb, ltb, ◌≤ℤ◌, ℤ, pos, negsuc, [], ◌∷◌, All, arith, if◌then◌else◌,
}
use ragkb.Text.{Text}
use ragkb.Text.Decimal.{
  IsDigit, value, digits, decimal, value-digits, digits-IsDigit, digits_not_empty,
}

-- What `ParseUint` finds: a number below 2 ^ 64, a number that has become too large, or a byte that
-- is no digit, whichever comes first.
pub data Scan : Type 0 where
  number : ℕ → Scan
  out_of_range bad_syntax : Scan

unfoldable pub is_digit : ℕ → Bool
is_digit c = leb b'0' c && leb c b'9'

-- The loop of `ParseUint`, behind digits that stand for `n`.
unfoldable pub scan : ℕ → Text → Scan
unfolding is_digit
scan n [] = number n
scan n (c ∷ cs) =
    let m = n * 10 + (c - 48) in
    let rest = scan m cs in
    if is_digit c then if ltb m (2 ^ 64) then rest else out_of_range else bad_syntax

unfoldable pub parse_uint : Text → Scan
unfolding scan
parse_uint [] = bad_syntax
parse_uint (c ∷ cs) = scan 0 (c ∷ cs)

-- The value that comes back, also beside an error, and whether there is one.
pub record Parsed : Type 0 where
  pub value : ℤ
  pub failed : Bool

abbrev pub max_int64 : ℤ
max_int64 = pos (2 ^ 63 - 1)

abbrev pub min_int64 : ℤ
min_int64 = negsuc (2 ^ 63 - 1)

abbrev minus : ℕ → ℤ
minus zero = pos 0
minus (suc n) = negsuc n

unfoldable pub with_sign : Bool → Scan → Parsed
with_sign false (number n) =
    if ltb n (2 ^ 63)
    then record { value = pos n; failed = false }
    else record { value = max_int64; failed = true }
with_sign true (number n) =
    if leb n (2 ^ 63)
    then record { value = minus n; failed = false }
    else record { value = min_int64; failed = true }
with_sign false out_of_range = record { value = max_int64; failed = true }
with_sign true out_of_range = record { value = min_int64; failed = true }
with_sign _ bad_syntax = record { value = pos 0; failed = true }

unfoldable pub parse_int : Text → Parsed
unfolding parse_uint with_sign
parse_int [] = record { value = pos 0; failed = true }
parse_int (c ∷ cs) =
    if c == b'+'
    then with_sign false (parse_uint cs)
    else if c == b'-'
    then with_sign true (parse_uint cs)
    else with_sign false (parse_uint (c ∷ cs))

value_above : (acc : ℕ) (cs : Text) → acc ≤ value acc cs
unfolding value
value_above acc [] = omega arith
value_above acc (c ∷ cs) = omega (arith, value_above (acc * 10 + (c - 48)) cs)

-- A row of digits is read as the number that it stands for, if that is below 2 ^ 64.
scan-value :
    (acc : ℕ) (cs : Text)
    → All IsDigit cs
    → value acc cs < 2 ^ 64
    → scan acc cs ≡ number (value acc cs)
unfolding scan value is_digit
scan-value acc [] all small = refl
scan-value acc (c ∷ cs) all small =
    let above = value_above (acc * 10 + (c - 48)) cs in
    let (low, high) = all.0 in ground (arith, scan-value (acc * 10 + (c - 48)) cs all.1 small)

scan-digits : (n : ℕ) → n < 2 ^ 64 → scan 0 (digits n) ≡ number n
scan-digits n small =
    let e = value-digits n in
    scan-value 0 (digits n) (digits-IsDigit n) (omega arith) ∙ (λ i. number (e i))

-- A row of digits that is not empty is no sign and no bare text.
parse_int-row :
    (cs : Text) (n : ℕ)
    → All IsDigit cs
    → cs ≢ []
    → scan 0 cs ≡ number n
    → parse_int cs ≡ with_sign false (number n)
unfolding parse_int parse_uint
parse_int-row [] n all some_row e = absurd (some_row refl)
parse_int-row (c ∷ cs) n all some_row e = let (low, high) = all.0 in ground arith

parse_uint-row : (cs : Text) → cs ≢ [] → parse_uint cs ≡ scan 0 cs
unfolding parse_uint
parse_uint-row [] some_row = absurd (some_row refl)
parse_uint-row (c ∷ cs) some_row = refl

-- What is written for an `int64` is read as that number.
pub parse_int-decimal :
    (z : ℤ)
    → min_int64 ≤ℤ z
    → z ≤ℤ max_int64
    → parse_int (decimal z) ≡ record { value = z; failed = false }
unfolding decimal parse_int with_sign
parse_int-decimal (pos n) low high =
    parse_int-row (digits n) n (digits-IsDigit n) (digits_not_empty n) (scan-digits n (omega arith))
    ∙ ground arith
parse_int-decimal (negsuc n) low high =
    let read = parse_uint-row (digits (suc n)) (digits_not_empty (suc n)) in
    let scanned = scan-digits (suc n) (omega arith) in ground arith
