-- ===== src/Collector/Parser.antt =====
-- src/sentum/collector/FastBinanceKlineParser.hpp. A message is its list of bytes, and a place in it is the
-- rest of the message from there on. An output argument is a result; `none` is a returned `false`. An integer
-- is a sign and a size, of 64 bits: where the code's signed arithmetic overflows, which it does not check, the model
-- wraps around, as the machines do.
use sentum.Prelude.{
  ℕ, ◌+◌, ◌-◌, ◌*◌, ◌==◌, ◌≡◌, refl, ◌++◌, arith, Bool, true, false, ◌&&◌, Option, none, some, List,
  [], ◌∷◌, ◌>>=◌, if◌then◌else◌, leb, ltb, not, ◌%◌, ◌≤◌, ◌<◌,
}
use sentum.Float.{Double, ◌⊕◌, ◌⊗◌, nought, from_size}

abbrev pub Bytes : Type 0
Bytes = List ℕ

-- The rest after a prefix.
unfoldable pub after_prefix : Bytes → Bytes → Option Bytes
after_prefix [] body = some body
after_prefix (p ∷ pattern) [] = none
after_prefix (p ∷ pattern) (b ∷ body) =
    let rest = after_prefix pattern body in if p == b then rest else none

-- The rest after the first place where the pattern stands.
unfoldable pub find_after : Bytes → Bytes → Option Bytes
find_after pattern [] = after_prefix pattern []
find_after pattern (b ∷ body) = elim (after_prefix pattern (b ∷ body)) [
  | some rest ↦ some rest
  | none ↦ find_after pattern body
]

-- `"k":` for a key of one byte.
abbrev pub value_pos : Bytes → ℕ → Option Bytes
value_pos body key = find_after (34 ∷ key ∷ 34 ∷ 58 ∷ []) body

-- The bytes before a quotation mark.
unfoldable pub until_quote : Bytes → Option Bytes
until_quote [] = none
until_quote (b ∷ body) = do
  let rest = until_quote body
  if b == 34 then some [] else (do more ← rest; some (b ∷ more))

unfoldable pub string_field : Bytes → ℕ → Option Bytes
string_field body key = do
  value ← value_pos body key
  text ← after_prefix (34 ∷ []) value
  until_quote text

abbrev pub is_digit : ℕ → Bool
is_digit b = leb 48 b && leb b 57

pub record Digits (N : Type 0) : Type 0 where
  pub value : N
  pub any : Bool
  pub rest : Bytes

-- The loop of `integer_field`, on the 64 bits of its number.
unfoldable pub read_digits : ℕ → Bool → Bytes → Digits ℕ
read_digits result any [] = record { value = result; any = any; rest = [] }
read_digits result any (b ∷ body) =
    let more = read_digits ((result * 10 + (b - 48)) % 18446744073709551616) true body in
    if is_digit b then more else record { value = result; any = any; rest = b ∷ body }

-- The number that a list of digits writes after the digits of another.
unfoldable pub decimal_of : ℕ → Bytes → ℕ
decimal_of result [] = result
decimal_of result (b ∷ digits) = decimal_of (result * 10 + (b - 48)) digits

unfoldable pub all_digits : Bytes → Bool
all_digits [] = true
all_digits (b ∷ digits) = is_digit b && all_digits digits

decimal_grows : (result : ℕ) (digits : Bytes) → result ≤ decimal_of result digits
unfolding decimal_of
decimal_grows result [] = omega arith
decimal_grows result (b ∷ digits) = omega (arith, decimal_grows (result * 10 + (b - 48)) digits)

-- Digits up to a byte that is none are read as the number that they write, if it is below 2 ^ 63, and the reading
-- stops there.
pub read_digits_exact :
    (result : ℕ) (any : Bool) (b : ℕ) (digits : Bytes) (stop : ℕ) (rest : Bytes)
    → all_digits (b ∷ digits) ≡ true
    → is_digit stop ≡ false
    → decimal_of result (b ∷ digits) < 9223372036854775808
    → read_digits result any ((b ∷ digits) ++ (stop ∷ rest))
      ≡ record { value = decimal_of result (b ∷ digits); any = true; rest = stop ∷ rest }
unfolding read_digits decimal_of all_digits
read_digits_exact result any b [] stop rest h e bound =
    let first : is_digit b ≡ true = ground arith in
    let fits : (result * 10 + (b - 48)) % 18446744073709551616 ≡ result * 10 + (b - 48) =
      omega (arith, bound) in
    rw (first, e, fits) refl
read_digits_exact result any b (c ∷ digits) stop rest h e bound =
    let first : is_digit b ≡ true = ground arith in
    let fits : (result * 10 + (b - 48)) % 18446744073709551616 ≡ result * 10 + (b - 48) =
      omega (arith, bound, decimal_grows (result * 10 + (b - 48)) (c ∷ digits)) in
    let later : all_digits (c ∷ digits) ≡ true = ground arith in
    rw (first, fits)
      (read_digits_exact (result * 10 + (b - 48)) true c digits stop rest later e bound)

-- Whether a minus sign stands here, and what follows it.
abbrev pub read_sign : Bytes → Bool × Bytes
read_sign [] = (false, [])
read_sign (b ∷ body) = if b == 45 then (true, body) else (false, b ∷ body)

pub record Integer : Type 0 where
  pub negative : Bool
  pub size : ℕ

-- The number with the given bits, negated where a sign stood.
abbrev pub signed_of : Bool → ℕ → Integer
signed_of negative bits =
    if ltb bits 9223372036854775808
    then record { negative = negative; size = bits }
    else if bits == 9223372036854775808
    then record { negative = true; size = bits }
    else record { negative = not negative; size = 18446744073709551616 - bits }

unfoldable pub integer_field : Bytes → ℕ → Option Integer
integer_field body key = do
  value ← value_pos body key
  let (negative, digits) = read_sign value
  let read = read_digits 0 false digits
  if read.any then some (signed_of negative read.value) else none

-- `body.substr(pos, n) == text`.
unfoldable pub bool_field : Bytes → ℕ → Option Bool
bool_field body key = do
  value ← value_pos body key
  elim (after_prefix (116 ∷ 114 ∷ 117 ∷ 101 ∷ []) value) [
    | some rest ↦ some true
    | none ↦ elim (after_prefix (102 ∷ 97 ∷ 108 ∷ 115 ∷ 101 ∷ []) value) [
      | some rest ↦ some false
      | none ↦ none
    ]
  ]

abbrev pub skip_quote : Bytes → Bytes
skip_quote [] = []
skip_quote (b ∷ body) = if b == 34 then body else b ∷ body

pub record ParsedKline (W : Type 0) : Type 0 where
  pub symbol : Bytes
  pub timestamp : Integer
  pub open_price : W
  pub high : W
  pub low : W
  pub close : W
  pub volume : W
  pub closed : Bool

module _ {W : Type 0} ⦃d : Double W⦄ where
  -- The digits before the point.
  unfoldable pub read_whole : W → Bool → Bytes → Digits W
  read_whole result any [] = record { value = result; any = any; rest = [] }
  read_whole result any (b ∷ body) =
      let more = read_whole ((result ⊗ from_size 10) ⊕ from_size (b - 48)) true body in
      if is_digit b then more else record { value = result; any = any; rest = b ∷ body }

  -- The digits after the point.
  unfoldable pub read_fraction : W → W → Bool → Bytes → Digits W
  read_fraction result scale any [] = record { value = result; any = any; rest = [] }
  read_fraction result scale any (b ∷ body) =
      let more =
        read_fraction (result ⊕ (from_size (b - 48) ⊗ scale)) (scale ⊗ d.lit 1 1) true body in
      if is_digit b then more else record { value = result; any = any; rest = b ∷ body }

  unfoldable pub read_point : Digits W → Digits W
  read_point read = elim (after_prefix (46 ∷ []) read.rest) [
    | none ↦ read
    | some fraction ↦ read_fraction read.value (d.lit 1 1) read.any fraction
  ]

  unfoldable pub decimal_field : Bytes → ℕ → Option W
  decimal_field body key = do
    value ← value_pos body key
    let (negative, digits) = read_sign (skip_quote value)
    let read = read_point (read_whole nought false digits)
    if read.any then some (if negative then d.neg read.value else read.value) else none

  -- The fields `s`, `t`, `o`, `h`, `l`, `c`, `v` and `x` after `"k":{`.
  unfoldable pub parse_kline : Bytes → Option (ParsedKline W)
  parse_kline payload = do
    body ← find_after (34 ∷ 107 ∷ 34 ∷ 58 ∷ 123 ∷ []) payload
    symbol ← string_field body 115
    timestamp ← integer_field body 116
    open_price ← decimal_field body 111
    high ← decimal_field body 104
    low ← decimal_field body 108
    close ← decimal_field body 99
    volume ← decimal_field body 118
    closed ← bool_field body 120
    some (record {
      symbol = symbol;
      timestamp = timestamp;
      open_price = open_price;
      high = high;
      low = low;
      close = close;
      volume = volume;
      closed = closed;
    })
