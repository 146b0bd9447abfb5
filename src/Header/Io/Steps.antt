-- ===== src/Header/Io/Steps.antt =====
-- ReadHeader of lib/nntp/message/header.go over one line of a header, with any text behind it.
use srndv.Base.{
  ◌≡◌, refl, ◌∙◌, List, [], ◌∷◌, ◌++◌, if◌then◌else◌, Bytes, ◌==◌, count_byte, append_assoc,
  append-nil, arith, All,
}
use srndv.Header.{Entry, Header, add}
use srndv.Header.Io.{Scan, in_key, in_value, read_from, write_values, write_entries, delim}

-- a value with its spaces gone
unfoldable pub despaced : Bytes → Bytes
despaced [] = []
despaced (c ∷ cs) = let rest = despaced cs in if c == 32 then rest else c ∷ rest

abbrev pub at_key : Header → Bytes → Scan
at_key hdr k = record { place = in_key; hdr = hdr; k = k; v = [] }

abbrev pub at_value : Header → Bytes → Bytes → Scan
at_value hdr k v = record { place = in_value; hdr = hdr; k = k; v = v }

read_from-key :
    (w : Bytes) (hdr : Header) (k rest : Bytes)
    → count_byte 58 w ≡ 0
    → count_byte delim w ≡ 0
    → read_from (at_key hdr k) (w ++ rest) ≡ read_from (at_key hdr (k ++ w)) rest
unfolding count_byte read_from
read_from-key [] hdr k rest h n = rw append-nil
read_from-key (c ∷ cs) hdr k rest h n =
    ground (arith, read_from-key cs hdr (k ++ c ∷ []) rest, append_assoc k (c ∷ []) cs)

read_from-value :
    (w : Bytes) (hdr : Header) (k v rest : Bytes)
    → count_byte delim w ≡ 0
    → read_from (at_value hdr k v) (w ++ rest) ≡ read_from (at_value hdr k (v ++ despaced w)) rest
unfolding count_byte read_from despaced
read_from-value [] hdr k v rest n = rw append-nil
read_from-value (c ∷ cs) hdr k v rest n = ground (
  arith,
  read_from-value cs hdr k v rest,
  read_from-value cs hdr k (v ++ c ∷ []) rest,
  append_assoc v (c ∷ []) (despaced cs),
)

read_from-colon :
    (hdr : Header) (k rest : Bytes)
    → read_from (at_key hdr k) (58 ∷ 32 ∷ rest) ≡ read_from (at_value hdr k []) rest
unfolding read_from
read_from-colon hdr k rest = refl

read_from-delim :
    (hdr : Header) (k v rest : Bytes)
    → read_from (at_value hdr k v) (delim ∷ rest) ≡ read_from (at_key (add hdr k v) []) rest
unfolding read_from
read_from-delim hdr k v rest = refl

-- One written line is read as one Add of the value with its spaces gone.
pub read_from-line :
    (k v : Bytes) (hdr : Header) (rest : Bytes)
    → count_byte 58 k ≡ 0
    → count_byte delim k ≡ 0
    → count_byte delim v ≡ 0
    → read_from (at_key hdr []) (k ++ (58 ∷ 32 ∷ (v ++ (delim ∷ rest))))
      ≡ read_from (at_key (add hdr k (despaced v)) []) rest
read_from-line k v hdr rest hk nk nv =
    read_from-key k hdr [] (58 ∷ 32 ∷ (v ++ (delim ∷ rest))) hk nk
    ∙ read_from-colon hdr k (v ++ (delim ∷ rest))
    ∙ read_from-value v hdr k [] (delim ∷ rest) nv
    ∙ read_from-delim hdr k (despaced v) rest

-- The Adds that reading the written values of one key makes.
unfoldable pub add_values : Header → Bytes → List Bytes → Header
add_values hdr k [] = hdr
add_values hdr k (v ∷ vs) = add_values (add hdr k (despaced v)) k vs

unfoldable pub add_entries : Header → Header → Header
unfolding add_values
add_entries hdr [] = hdr
add_entries hdr ((k, vs) ∷ more) = add_entries (add_values hdr k vs) more

abbrev pub IsFree : Bytes → Type 0
IsFree v = count_byte delim v ≡ 0

-- What the format can carry: no colon or newline in a key, no newline in a value.
abbrev pub IsWritableEntry : Entry → Type 0
IsWritableEntry e = (count_byte 58 e.0 ≡ 0) × (count_byte delim e.0 ≡ 0) × All IsFree e.1

abbrev pub IsWritable : Header → Type 0
IsWritable = All IsWritableEntry

read_from-values :
    (k : Bytes) (vs : List Bytes) (hdr : Header) (rest : Bytes)
    → count_byte 58 k ≡ 0
    → count_byte delim k ≡ 0
    → All IsFree vs
    → read_from (at_key hdr []) (write_values k vs ++ rest)
      ≡ read_from (at_key (add_values hdr k vs) []) rest
unfolding write_values add_values
read_from-values k [] hdr rest hk nk free = refl
read_from-values k (v ∷ vs) hdr rest hk nk free = simp append_assoc (
    read_from-line k v hdr (write_values k vs ++ rest) hk nk free.0
    ∙ read_from-values k vs (add hdr k (despaced v)) rest hk nk free.1)

pub read_from-entries :
    (h hdr : Header) (rest : Bytes)
    → IsWritable h
    → read_from (at_key hdr []) (write_entries h ++ rest)
      ≡ read_from (at_key (add_entries hdr h) []) rest
unfolding write_entries add_entries
read_from-entries [] hdr rest w = refl
read_from-entries ((k, vs) ∷ more) hdr rest ((hk, nk, free), w) = simp append_assoc (
    read_from-values k vs hdr (write_entries more ++ rest) hk nk free
    ∙ read_from-entries more (add_values hdr k vs) rest w)
