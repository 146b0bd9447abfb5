-- ===== src/Address/Lost.antt =====
-- What comes of blinding an address and reading it back, in src/srnd/util.go.
use srndv.Base.{
  ℕ, ◌+◌, ◌-◌, ◌*◌, ◌/◌, ◌≤◌, ◌<◌, ◌≡◌, refl, Bool, true, false, not, Option, none, some, [], ◌∷◌,
  ◌++◌, ltb, ◌==◌, length, if◌then◌else◌, Bytes, arith,
}
use srndv.Address.{
  group, decode_groups, without_newlines, decode_string, encode_to_string, repeat, xor_bytes,
  enc_addr, dec_addr,
}

length-group :
    (a b c d : Option ℕ) (pad2 pad1 last : Bool) (more : Bytes × Bool)
    → length (group a b c d pad2 pad1 last more).0 ≤ 3 + length more.0
length-group (some a) (some b) (some c) (some d) pad2 pad1 last more = omega arith
length-group (some a) (some b) (some c) none pad2 true last more = omega arith
length-group (some a) (some b) (some c) none pad2 false last more = omega arith
length-group (some a) (some b) none d true true last more = omega arith
length-group (some a) (some b) none d true false last more = omega arith
length-group (some a) (some b) none d false pad1 last more = omega arith
length-group (some a) none c d pad2 pad1 last more = omega arith
length-group none b c d pad2 pad1 last more = omega arith

length-decode_groups : (s : Bytes) → length (decode_groups s).0 ≤ 3 * (length s / 4)
unfolding decode_groups
length-decode_groups [] = omega arith
length-decode_groups (a ∷ []) = omega arith
length-decode_groups (a ∷ (b ∷ [])) = omega arith
length-decode_groups (a ∷ (b ∷ (c ∷ []))) = omega arith
length-decode_groups (a ∷ (b ∷ (c ∷ (d ∷ rest)))) =
    omega (arith, length-group _ _ _ _ _ _ _ (decode_groups rest), length-decode_groups rest)

length-without_newlines : (s : Bytes) → length (without_newlines s) ≤ length s
unfolding without_newlines
length-without_newlines [] = omega arith
length-without_newlines (c ∷ cs) = ground (arith, length-without_newlines cs)

length-decode_string : (s : Bytes) → length (decode_string s).0 ≤ 3 * (length s / 4)
unfolding decode_string
length-decode_string s =
    omega (arith, length-decode_groups (without_newlines s), length-without_newlines s)

length-encode_to_string : (s : Bytes) → length (encode_to_string s) ≡ 4 * ((length s + 2) / 3)
unfolding encode_to_string
length-encode_to_string [] = refl
length-encode_to_string (a ∷ []) = refl
length-encode_to_string (a ∷ (b ∷ [])) = refl
length-encode_to_string (a ∷ (b ∷ (c ∷ rest))) = omega (arith, length-encode_to_string rest)

length-xor_bytes : (key addr : Bytes) → length (xor_bytes key addr) ≤ length key
unfolding xor_bytes
length-xor_bytes [] addr = omega arith
length-xor_bytes (k ∷ ks) [] = omega arith
length-xor_bytes (k ∷ ks) (b ∷ bs) = omega (arith, length-xor_bytes ks bs)

length_guard : (b : Bool) (s : Bytes) (n : ℕ) → length s ≤ n → length (if b then [] else s) ≤ n
length_guard true s n h = omega arith
length_guard false s n h = h

nil_guard : (b : Bool) (s : Bytes) → s ≡ [] → (if b then [] else s) ≡ []
nil_guard true s h = refl
nil_guard false s h = h

below_differs : (m n : ℕ) → m < n → not (m == n) ≡ true
below_differs m n h = ground arith

-- A blinded address is no longer than the text of its key.
length-enc_addr : (addr key : Bytes) → length (enc_addr addr key) ≤ length key
unfolding enc_addr
length-enc_addr addr key =
    let (key_bytes, valid) = decode_string key in
    let padded = addr ++ repeat (length key_bytes - length addr) 32 in
    let short : length (encode_to_string (xor_bytes key_bytes padded)) ≤ length key = omega (
      arith,
      length-decode_string key,
      length-xor_bytes key_bytes padded,
      length-encode_to_string (xor_bytes key_bytes padded),
    ) in
    length_guard (not valid) _ (length key)
      (length_guard (ltb (length key_bytes) (length addr)) _ (length key) short)

-- An address that is no longer than its key is not decrypted.
pub dec_addr_short :
    (encaddr key : Bytes) → length encaddr ≤ length key → 0 < length key → dec_addr encaddr key ≡ []
unfolding dec_addr
dec_addr_short encaddr key h k =
    let differ : length (decode_string encaddr).0 < length key =
      omega (arith, h, k, length-decode_string encaddr) in
    nil_guard (not (decode_string encaddr).1) _ (rw (below_differs _ _ differ) refl)

-- An address that encAddr blinds with a key is never read back by decAddr with that key, which
-- finds the empty address: decAddr compares the bytes of the address with the length of the key's
-- base64 text.
pub dec_addr-enc_addr : (addr key : Bytes) → 0 < length key → dec_addr (enc_addr addr key) key ≡ []
dec_addr-enc_addr addr key k = dec_addr_short (enc_addr addr key) key (length-enc_addr addr key) k
