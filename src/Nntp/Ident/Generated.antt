-- ===== src/Nntp/Ident/Generated.antt =====
-- GenMessageID of lib/nntp/common.go makes a valid message id from a usable server name.
use srndv.Base.{
  ℕ, zero, suc, ◌+◌, ◌*◌, ◌/◌, ◌%◌, ◌≤◌, ◌<◌, ◌≡◌, refl, Bool, true, [], ◌∷◌, ◌++◌, length,
  length-append, all, Bytes, hex, hex_digit, decimal, decimal_onto, append_assoc, arith,
}
use srndv.Nntp.Ident.{is_local, is_host, gen_message_id, message_id_valid}
use srndv.Nntp.Ident.Language.{IsRun, IsMessageId-valid}

hex_digit-is_local : (d : ℕ) → d < 16 → is_local (hex_digit d) ≡ true
unfolding hex_digit is_local
hex_digit-is_local d h = ground arith

all-append : (p : ℕ → Bool) (a b : Bytes) → all p a ≡ true → all p b ≡ true → all p (a ++ b) ≡ true
all-append p [] b ha hb = hb
all-append p (c ∷ cs) b ha hb = ground (arith, all-append p cs b)

all-hex : (r : Bytes) → all is_local (hex r) ≡ true
unfolding hex
all-hex [] = refl
all-hex (b ∷ bs) =
    ground (arith, hex_digit-is_local (b / 16 % 16), hex_digit-is_local (b % 16), all-hex bs)

length-hex : (r : Bytes) → length (hex r) ≡ length r + length r
unfolding hex
length-hex [] = refl
length-hex (b ∷ bs) = omega (arith, length-hex bs)

digit-is_local : (n : ℕ) → is_local (48 + n % 10) ≡ true
unfolding is_local
digit-is_local n = ground arith

all-decimal_onto :
    (fuel n : ℕ) (acc : Bytes)
    → all is_local acc ≡ true
    → all is_local (decimal_onto fuel n acc) ≡ true
unfolding decimal_onto
all-decimal_onto zero n acc h = h
all-decimal_onto (suc fuel) n acc h =
    ground (arith, digit-is_local n, all-decimal_onto fuel (n / 10) ((48 + n % 10) ∷ acc))

abbrev pub pow10 : ℕ → ℕ
pow10 zero = 1
pow10 (suc k) = 10 * pow10 k

-- a number below 10^(k+1) has at most k+1 digits
length-decimal_onto :
    (fuel k n : ℕ) (acc : Bytes)
    → n < pow10 (suc k)
    → length (decimal_onto fuel n acc) ≤ length acc + suc k
unfolding decimal_onto
length-decimal_onto zero k n acc h = omega arith
length-decimal_onto (suc fuel) zero n acc h = ground arith
length-decimal_onto (suc fuel) (suc k) n acc h =
    ground (arith, length-decimal_onto fuel k (n / 10) ((48 + n % 10) ∷ acc))

prefix_long : (a b : Bytes) (n : ℕ) → n ≤ length a → n ≤ length (a ++ b)
prefix_long a b n h = omega (arith, length-append a b)

dollar-is_local : is_local b'$' ≡ true
unfolding is_local
dollar-is_local = refl

local-IsRun :
    (r : Bytes) (t : ℕ)
    → length r ≡ 4
    → t < pow10 19
    → IsRun is_local 2 128 (hex r ++ (b'$' ∷ decimal t))
unfolding decimal
local-IsRun r t hr ht =
    let size = length-append (hex r) (b'$' ∷ decimal t) in
    record {
      of_class =
          all-append is_local (hex r) (b'$' ∷ decimal t) (all-hex r)
            (ground (arith, dollar-is_local, all-decimal_onto (suc t) t [] refl));
      long_enough = omega (arith, size, length-hex r);
      short_enough = omega (arith, size, length-hex r, length-decimal_onto (suc t) 18 t [] ht);
    }

-- With four random bytes and a time below 10^19 (every time of 63 bits), GenMessageID of a server
-- name that is 2 to 63 letters, digits, dashes and dots is a valid message id.
pub gen_message_id-valid :
    (r : Bytes) (t : ℕ) (name : Bytes)
    → length r ≡ 4
    → t < pow10 19
    → IsRun is_host 2 63 name
    → message_id_valid (gen_message_id r t name) ≡ true
unfolding gen_message_id
gen_message_id-valid r t name hr ht run = IsMessageId-valid (gen_message_id r t name) (record {
  local = hex r ++ (b'$' ∷ decimal t);
  host = name;
  splits = simp append_assoc;
  local_run = local-IsRun r t hr ht;
  host_run = run;
})
