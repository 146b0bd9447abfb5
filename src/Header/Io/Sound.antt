-- ===== src/Header/Io/Sound.antt =====
-- What ReadHeader of lib/nntp/message/header.go returns has no empty slice of values, so that no
-- later Get on it panics.
use srndv.Base.{
  ℕ, ◌≡◌, refl, ◌==◌, Bool, true, false, Option, some, List, [], ◌∷◌, Bytes, Bool-cases, inl, inr,
  codes, has_prefix, if◌then◌else◌,
}
use srndv.Header.{
  Header, IsWellFormed, message_id, first_value, newsgroup, is_multipart, is_empty, lookup,
  message_id_names,
}
use srndv.Header.Laws.{add-IsWellFormed, get_joined, joined_or}
use srndv.Header.Io.{
  Place, in_key, in_value, Scan, Next, go, done, step, Read, read_from, read_header, delim, start,
}

abbrev NextWellFormed : Next → Type 0
NextWellFormed (go s) = IsWellFormed s.hdr
NextWellFormed (done hdr) = IsWellFormed hdr

step-IsWellFormed :
    (p : Place) (s : Scan) (c : ℕ) → IsWellFormed s.hdr → NextWellFormed (step p s c)
unfolding step
step-IsWellFormed in_key s c w = elim (Bool-cases (c == 58)) [
  | inl e ↦ rw e w
  | inr n ↦ elim (Bool-cases (c == delim)) [ inl e ↦ rw (n, e) w | inr m ↦ rw (n, m) w ]
]
step-IsWellFormed in_value s c w = elim (Bool-cases (c == 32)) [
  | inl e ↦ rw e w
  | inr n ↦ elim (Bool-cases (c == delim)) [
    | inl e ↦ rw (n, e) (add-IsWellFormed s.hdr s.k s.v w)
    | inr m ↦ rw (n, m) w
  ]
]

next-IsWellFormed :
    (n : Next) (cs : Bytes)
    → ((s : Scan) → IsWellFormed s.hdr → IsWellFormed (read_from s cs).hdr)
    → NextWellFormed n
    → IsWellFormed (
        let r : Read = elim n [
          | go s ↦ read_from s cs
          | done hdr ↦ record { complete = true; hdr = hdr; rest = cs }
        ] in
        r.hdr)
next-IsWellFormed (go s) cs ih w = ih s w
next-IsWellFormed (done hdr) cs ih w = w

read_from-IsWellFormed :
    (cs : Bytes) (s : Scan) → IsWellFormed s.hdr → IsWellFormed (read_from s cs).hdr
unfolding read_from
read_from-IsWellFormed [] s w = w
read_from-IsWellFormed (c ∷ cs) s w =
    next-IsWellFormed (step s.place s c) cs (read_from-IsWellFormed cs)
      (step-IsWellFormed s.place s c w)

pub read_header-IsWellFormed : (input : Bytes) → IsWellFormed (read_header input).hdr
unfolding read_header
read_header-IsWellFormed input = read_from-IsWellFormed input start tt

-- a step that returns
abbrev pub Returns : {A : Type 0} → Option A → Type 0
Returns {A} o = (a : A) × (o ≡ some a)

first_value-Returns :
    (self : Header) (names : List Bytes) → IsWellFormed self → Returns (first_value self names)
unfolding first_value
first_value-Returns self [] w = ([], refl)
first_value-Returns self (n ∷ ns) w =
    let (v, e) = first_value-Returns self ns w in
    let got = joined_or [] (lookup n self) in
    ((if is_empty got then v else got), rw (get_joined self n [] w, e) (pick (is_empty got) v got))
  where
    pick :
        (b : Bool) (v got : Bytes) → (if b then some v else some got) ≡ some (if b then v else got)
    pick true v got = refl
    pick false v got = refl

-- On a header with no empty slice MessageID, Newsgroup and IsMultipart do not panic.
pub message_id-Returns : (self : Header) → IsWellFormed self → Returns (message_id self)
unfolding message_id
message_id-Returns self w = first_value-Returns self message_id_names w

pub newsgroup-Returns : (self : Header) → IsWellFormed self → Returns (newsgroup self)
unfolding newsgroup
newsgroup-Returns self w = (_, get_joined self (codes "Newsgroups") (codes "overchan.discard") w)

pub is_multipart-Returns : (self : Header) → IsWellFormed self → Returns (is_multipart self)
unfolding is_multipart
is_multipart-Returns self w = (
  has_prefix (codes "multipart/mixed")
      (joined_or (codes "text/plain") (lookup (codes "Content-Type") self)),
  rw (get_joined self (codes "Content-Type") (codes "text/plain") w),
)
