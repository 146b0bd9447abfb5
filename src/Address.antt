-- ===== src/Address.antt =====
-- How the daemon blinds an address (encAddr, decAddr and newAddrEnc of src/srnd/util.go), with
-- base64 as encoding/base64 has it.
pub mod Lost
use Prim.Native.Nat.{bit_xor}
use srndv.Base.{
  ℕ, zero, suc, ◌+◌, ◌-◌, ◌*◌, ◌/◌, ◌%◌, Bool, true, false, not, ◌&&◌, ◌||◌, Option, none, some,
  List, [], ◌∷◌, ◌++◌, ltb, ◌==◌, within, length, if◌then◌else◌, Bytes, codes,
}

-- the value of a digit of base64
unfoldable pub digit_value : ℕ → Option ℕ
digit_value c =
    if within b'A' b'Z' c
    then some (c - 65)
    else if within b'a' b'z' c
    then some (c - 71)
    else if within b'0' b'9' c
    then some (c + 4)
    else if c == b'+'
    then some 62
    else if c == b'/'
    then some 63
    else none

unfoldable pub digit : ℕ → ℕ
digit n =
    if ltb n 26
    then n + 65
    else if ltb n 52
    then n + 71
    else if ltb n 62
    then n - 4
    else if n == 62
    then b'+'
    else b'/'

-- Four digits; `pad2` and `pad1` tell of a padding at the third and the fourth, `last` of the end
-- of the text behind them, and `more` is what is decoded there.
abbrev pub group :
    Option ℕ → Option ℕ → Option ℕ → Option ℕ → Bool → Bool → Bool → Bytes × Bool → Bytes × Bool
group (some a) (some b) (some c) (some d) pad2 pad1 last more =
    ((a * 4 + b / 16) ∷ ((b % 16 * 16 + c / 4) ∷ ((c % 4 * 64 + d) ∷ more.0)), more.1)
group (some a) (some b) (some c) none pad2 pad1 last more =
    if pad1 then ((a * 4 + b / 16) ∷ ((b % 16 * 16 + c / 4) ∷ []), last) else ([], false)
group (some a) (some b) none d pad2 pad1 last more =
    if pad2 && pad1 then ((a * 4 + b / 16) ∷ [], last) else ([], false)
group _ _ _ _ pad2 pad1 last more = ([], false)

abbrev pub at_end : Bytes → Bool
at_end [] = true
at_end (c ∷ cs) = false

-- the bytes up to an error, and whether there was none
unfoldable pub decode_groups : Bytes → Bytes × Bool
unfolding digit_value
decode_groups [] = ([], true)
decode_groups (a ∷ (b ∷ (c ∷ (d ∷ rest)))) =
    let more = decode_groups rest in
    group (digit_value a) (digit_value b) (digit_value c) (digit_value d) (c == b'=') (d == b'=')
      (at_end rest) more
decode_groups _ = ([], false)

-- The decoder skips \r and \n.
unfoldable pub without_newlines : Bytes → Bytes
without_newlines [] = []
without_newlines (c ∷ cs) =
    let rest = without_newlines cs in if c == 13 || c == 10 then rest else c ∷ rest

-- base64.StdEncoding.DecodeString
unfoldable pub decode_string : Bytes → Bytes × Bool
unfolding decode_groups without_newlines
decode_string s = decode_groups (without_newlines s)

-- base64.StdEncoding.EncodeToString
unfoldable pub encode_to_string : Bytes → Bytes
unfolding digit
encode_to_string [] = []
encode_to_string (a ∷ []) = digit (a / 4) ∷ (digit (a % 4 * 16) ∷ codes "==")
encode_to_string (a ∷ (b ∷ [])) =
    digit (a / 4) ∷ (digit (a % 4 * 16 + b / 16) ∷ (digit (b % 16 * 4) ∷ codes "="))
encode_to_string (a ∷ (b ∷ (c ∷ rest))) =
    digit (a / 4)
    ∷ (digit (a % 4 * 16 + b / 16)
        ∷ (digit (b % 16 * 4 + c / 64) ∷ (digit (c % 64) ∷ encode_to_string rest)))

unfoldable pub repeat : ℕ → ℕ → Bytes
repeat zero c = []
repeat (suc n) c = c ∷ repeat n c

-- the loop over the bytes of the key
unfoldable pub xor_bytes : Bytes → Bytes → Bytes
xor_bytes [] addr = []
xor_bytes (k ∷ ks) [] = []
xor_bytes (k ∷ ks) (b ∷ bs) = bit_xor b k ∷ xor_bytes ks bs

unfoldable pub trim_front : Bytes → Bytes
trim_front [] = []
trim_front (c ∷ cs) = let rest = trim_front cs in if c == 32 then rest else c ∷ cs

abbrev pub or_cut : ℕ → Bytes → Bytes
or_cut c [] = if c == 32 then [] else c ∷ []
or_cut c (d ∷ ds) = c ∷ (d ∷ ds)

unfoldable pub trim_end : Bytes → Bytes
trim_end [] = []
trim_end (c ∷ cs) = or_cut c (trim_end cs)

-- encAddr
unfoldable pub enc_addr : Bytes → Bytes → Bytes
unfolding decode_string encode_to_string repeat xor_bytes
enc_addr addr key =
    let (key_bytes, valid) = decode_string key in
    if not valid
    then []
    else if ltb (length key_bytes) (length addr)
    then []
    else encode_to_string (xor_bytes key_bytes (addr ++ repeat (length key_bytes - length addr) 32))

-- newAddrEnc with its 64 random bytes: the key and the blinded address
unfoldable pub new_addr_enc : Bytes → Bytes → Bytes × Bytes
unfolding encode_to_string enc_addr
new_addr_enc key_bytes addr = let key = encode_to_string key_bytes in (key, enc_addr addr key)

-- decAddr; an error of the key is only logged
unfoldable pub dec_addr : Bytes → Bytes → Bytes
unfolding decode_string repeat xor_bytes trim_front trim_end
dec_addr encaddr key =
    let (encaddr_bytes, valid) = decode_string encaddr in
    if not valid
    then []
    else if not (length encaddr_bytes == length key)
    then []
    else let key_bytes = (decode_string key).0 in
      trim_end
        (trim_front (xor_bytes key_bytes encaddr_bytes ++ repeat (length key - length key_bytes) 0))
