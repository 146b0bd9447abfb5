-- ===== src/Header/Io.antt =====
-- HeaderIO of lib/nntp/message/header.go: ReadHeader and WriteHeader over a source of bytes that
-- ends with io.EOF. The delimiter is the one that NewHeaderIO sets.
pub mod Steps
pub mod RoundTrip
pub mod Sound
use srndv.Base.{
  ℕ, Bool, true, false, Option, none, some, List, [], ◌∷◌, ◌++◌, if◌then◌else◌, Bytes, ◌==◌,
}
use srndv.Header.{Entry, Header, add}

abbrev pub delim : ℕ
delim = 10

pub data Place : Type 0 where
  in_key in_value : Place

-- the variables of the two inner loops, and which of them runs
pub record Scan : Type 0 where
  pub place : Place
  pub hdr : Header
  pub k : Bytes
  pub v : Bytes

-- after one byte: the loops go on, or ReadHeader returns its header
pub data Next : Type 0 where
  go : Scan → Next
  done : Header → Next

abbrev pub key_byte : Scan → ℕ → Next
key_byte s c =
    if c == 58
    then go (record s { place = in_value })
    else if c == delim
    then done s.hdr
    else go (record s { k = s.k ++ c ∷ [] })

abbrev pub value_byte : Scan → ℕ → Next
value_byte s c =
    if c == 32
    then go s
    else if c == delim
    then go (record { place = in_key; hdr = add s.hdr s.k s.v; k = []; v = [] })
    else go (record s { v = s.v ++ c ∷ [] })

unfoldable pub step : Place → Scan → ℕ → Next
step in_key s c = key_byte s c
step in_value s c = value_byte s c

-- ReadHeader's results: whether it ended without an error, the header, and the bytes not read
pub record Read : Type 0 where
  pub complete : Bool
  pub hdr : Header
  pub rest : Bytes

unfoldable pub read_from : Scan → Bytes → Read
unfolding step
read_from s [] = record { complete = false; hdr = s.hdr; rest = [] }
read_from s (c ∷ cs) = elim (step s.place s c) [
  | go s' ↦ read_from s' cs
  | done hdr ↦ record { complete = true; hdr = hdr; rest = cs }
]

abbrev pub start : Scan
start = record { place = in_key; hdr = []; k = []; v = [] }

unfoldable pub read_header : Bytes → Read
unfolding read_from
read_header = read_from start

-- one line for each value of a key
unfoldable pub write_values : Bytes → List Bytes → Bytes
write_values k [] = []
write_values k (v ∷ vs) = k ++ (58 ∷ 32 ∷ (v ++ (delim ∷ write_values k vs)))

unfoldable pub write_entries : Header → Bytes
unfolding write_values
write_entries [] = []
write_entries ((k, vs) ∷ hdr) = write_values k vs ++ write_entries hdr

unfoldable pub write_header : Header → Bytes
unfolding write_entries
write_header hdr = write_entries hdr ++ delim ∷ []
