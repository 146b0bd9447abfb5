-- ===== src/Base/Text.antt =====
-- Go strings as lists of bytes, and what the program uses of the packages strings and strconv.
-- `to_upper` is strings.ToUpper on ASCII text; other bytes are left alone.
use Prim.Native.Nat.{ℕ, zero, suc, ◌+◌, ◌-◌, ◌/◌, ◌%◌}
use Prim.Native.Char.{code}
use Prim.Native.String.{String}
use mathlib.Core.Path.{◌≡◌, refl, ap, ◌∙◌}
use mathlib.Core.Logic.{◌↔◌, ◌≢◌}
use mathlib.Core.Bool.{Bool, true, false, ◌&&◌}
use mathlib.Core.List.{List, [], ◌∷◌, ◌++◌, map}
use native.Mathlib.Omega.{arith}
use srndv.Base.Tests.{◌==◌, ltb, if◌then◌else◌, within}
use srndv.Base.Lists.{length}

abbrev pub Bytes : Type 0
Bytes = List ℕ

-- The bytes of an ASCII literal.
abbrev pub codes : String → Bytes
codes String.[] = []
codes (String.◌∷◌ c s) = code c ∷ codes s

abbrev pub lift_codes : List String → List Bytes
lift_codes = map codes

-- a == b on strings
unfoldable pub same : Bytes → Bytes → Bool
same [] [] = true
same (x ∷ xs) (y ∷ ys) = x == y && same xs ys
same _ _ = false

-- strings.HasPrefix(s, p), the prefix first
unfoldable pub has_prefix : Bytes → Bytes → Bool
has_prefix [] s = true
has_prefix (p ∷ ps) [] = false
has_prefix (p ∷ ps) (c ∷ cs) = p == c && has_prefix ps cs

unfoldable pub upper_byte : ℕ → ℕ
upper_byte c = if within b'a' b'z' c then c - 32 else c

-- strings.ToUpper
unfoldable pub to_upper : Bytes → Bytes
unfolding upper_byte
to_upper = map upper_byte

-- strings.Count(s, sep) for a separator of one byte
unfoldable pub count_byte : ℕ → Bytes → ℕ
count_byte sep [] = 0
count_byte sep (c ∷ cs) = (if c == sep then 1 else 0) + count_byte sep cs

unfoldable pub split_head : ℕ → List Bytes → List Bytes
split_head c [] = (c ∷ []) ∷ []
split_head c (w ∷ ws) = (c ∷ w) ∷ ws

-- strings.Split(s, sep) for a separator of one byte
unfoldable pub split : ℕ → Bytes → List Bytes
unfolding split_head
split sep [] = [] ∷ []
split sep (c ∷ cs) = let rest = split sep cs in if c == sep then [] ∷ rest else split_head c rest

-- strings.Join(ws, sep)
unfoldable pub join : ℕ → List Bytes → Bytes
join sep [] = []
join sep (w ∷ []) = w
join sep (w ∷ (v ∷ vs)) = w ++ (sep ∷ join sep (v ∷ vs))

unfoldable pub decimal_onto : ℕ → ℕ → Bytes → Bytes
decimal_onto zero n acc = acc
decimal_onto (suc fuel) n acc =
    let digit = 48 + n % 10 in
    let rest = decimal_onto fuel (n / 10) (digit ∷ acc) in if n / 10 == 0 then digit ∷ acc else rest

-- %d of a number that is not negative; n + 1 rounds are more than its digits
unfoldable pub decimal : ℕ → Bytes
unfolding decimal_onto
decimal n = decimal_onto (suc n) n []

unfoldable pub hex_digit : ℕ → ℕ
hex_digit d = if ltb d 10 then 48 + d else 87 + d

unfoldable pub hex_byte : ℕ → Bytes
unfolding hex_digit
hex_byte b = hex_digit (b / 16 % 16) ∷ hex_digit (b % 16) ∷ []

-- %x of a byte slice
unfoldable pub hex : Bytes → Bytes
unfolding hex_byte
hex [] = []
hex (b ∷ bs) = hex_byte b ++ hex bs

pub same_iff : (a b : Bytes) → (same a b ≡ true) ↔ (a ≡ b)
unfolding same
same_iff (x ∷ a) (y ∷ b) = ground (arith, same_iff a b)
same_iff _ _ = ground arith

pub same_refl : (a : Bytes) → same a a ≡ true
same_refl a = (same_iff a a).1 refl

split-ne-nil_step :
    (b : Bool) (c : ℕ) (ws : List Bytes) → (if b then [] ∷ ws else split_head c ws) ≢ []
unfolding split_head
split-ne-nil_step true c ws = λ e. cc e
split-ne-nil_step false c [] = λ e. cc e
split-ne-nil_step false c (w ∷ ws) = λ e. cc e

pub split-ne-nil : (sep : ℕ) (s : Bytes) → split sep s ≢ []
unfolding split
split-ne-nil sep [] = λ e. cc e
split-ne-nil sep (c ∷ cs) = split-ne-nil_step (c == sep) c (split sep cs)

join_cons :
    (sep c : ℕ) (w : Bytes) (ws : List Bytes) → join sep ((c ∷ w) ∷ ws) ≡ c ∷ join sep (w ∷ ws)
unfolding join
join_cons sep c w [] = refl
join_cons sep c w (v ∷ vs) = refl

join_step :
    (sep c : ℕ) (ws : List Bytes)
    → ws ≢ []
    → join sep (if c == sep then [] ∷ ws else split_head c ws) ≡ c ∷ join sep ws
unfolding split_head join
join_step sep c [] ne = absurd (ne refl)
join_step sep c (w ∷ ws) ne = ground (arith, join_cons sep c w ws)

-- Joining what was split gives the text back.
pub join-split : (sep : ℕ) (s : Bytes) → join sep (split sep s) ≡ s
unfolding split
join-split sep [] = unfold join in refl
join-split sep (c ∷ cs) =
    join_step sep c (split sep cs) (split-ne-nil sep cs) ∙ ap (◌∷◌ c) (join-split sep cs)

-- A text without the separator is one piece.
pub split_free : (sep : ℕ) (s : Bytes) → count_byte sep s ≡ 0 → split sep s ≡ s ∷ []
unfolding split count_byte split_head
split_free sep [] h = refl
split_free sep (c ∷ cs) h = ground (arith, split_free sep cs)

-- The first piece ends at the first separator.
pub split-append :
    (sep : ℕ) (w rest : Bytes)
    → count_byte sep w ≡ 0
    → split sep (w ++ (sep ∷ rest)) ≡ w ∷ split sep rest
unfolding split count_byte split_head
split-append sep [] rest h = ground arith
split-append sep (c ∷ cs) rest h = ground (arith, split-append sep cs rest)

length-split_head : (c : ℕ) (ws : List Bytes) → ws ≢ [] → length (split_head c ws) ≡ length ws
unfolding split_head
length-split_head c [] ne = absurd (ne refl)
length-split_head c (w ∷ ws) ne = refl

-- There is one piece more than there are separators.
pub length-split : (sep : ℕ) (s : Bytes) → length (split sep s) ≡ suc (count_byte sep s)
unfolding split count_byte
length-split sep [] = refl
length-split sep (c ∷ cs) =
    ground (arith, length-split sep cs, length-split_head c (split sep cs) (split-ne-nil sep cs))

pub count_byte-append :
    (sep : ℕ) (a b : Bytes) → count_byte sep (a ++ b) ≡ count_byte sep a + count_byte sep b
unfolding count_byte
count_byte-append sep [] b = omega arith
count_byte-append sep (c ∷ cs) b = omega (arith, count_byte-append sep cs b)
