-- ===== src/Base/Integer.antt =====
-- What the program uses of the signed integers and of strconv: ParseInt with base ten, and %d.
use srndv.Base.Tests.{◌==◌, ltb, within, if◌then◌else◌}
use srndv.Base.Text.{Bytes, decimal}
use srndv.Base.Panic.{◌>>=◌}
use Prim.Native.Nat.{ℕ, zero, suc, ◌+◌, ◌-◌, ◌*◌}
use mathlib.Core.Option.{Option, none, some}
use mathlib.Core.List.{[], ◌∷◌}

-- `negsuc n` is -(n + 1).
pub data ℤ : Type 0 where
  pos : ℕ → ℤ
  negsuc : ℕ → ℤ

unfoldable pub negate : ℕ → ℤ
negate zero = pos zero
negate (suc n) = negsuc n

-- the digits of a number, read onto what came before them
unfoldable pub read_digits : ℕ → Bytes → Option ℕ
read_digits acc [] = some acc
read_digits acc (c ∷ cs) =
    let rest = read_digits (acc * 10 + (c - 48)) cs in if within b'0' b'9' c then rest else none

unfoldable pub read_number : Bytes → Option ℕ
unfolding read_digits
read_number [] = none
read_number (c ∷ cs) = read_digits 0 (c ∷ cs)

abbrev pub bounded : ℕ → ℕ → Option ℕ
bounded limit n = if ltb n limit then some n else none

abbrev pub positive : Option ℕ → Option ℤ
positive none = none
positive (some n) = some (pos n)

abbrev pub negative : Option ℕ → Option ℤ
negative none = none
negative (some n) = some (negate n)

-- strconv.ParseInt(s, 10, bits), the `half` being 2 ^ (bits - 1); `none` is its error
unfoldable pub parse_int : ℕ → Bytes → Option ℤ
unfolding read_number negate
parse_int half [] = none
parse_int half (c ∷ cs) =
    if c == b'-'
    then negative (do n ← read_number cs; bounded (suc half) n)
    else if c == b'+'
    then positive (do n ← read_number cs; bounded half n)
    else positive (do n ← read_number (c ∷ cs); bounded half n)

abbrev pub half32 : ℕ
half32 = 2147483648

abbrev pub half64 : ℕ
half64 = 9223372036854775808

-- %d
unfoldable pub decimal_int : ℤ → Bytes
unfolding decimal
decimal_int (pos n) = decimal n
decimal_int (negsuc n) = b'-' ∷ decimal (suc n)
