-- ===== src/Header.antt =====
-- lib/nntp/message/header.go: the header of an article and the operations on it.
-- A Go map is a list of entries, in the order in which one run of `range` visits them; a theorem
-- about every such list covers every order. A panic is `none`.
pub mod Laws
pub mod Io
use srndv.Base.{
  ℕ, ◌-◌, String, ◌≡◌, ◌≢◌, Bool, true, false, not, Option, none, some, List, [], ◌∷◌, ◌++◌, ltb,
  if◌then◌else◌, is_none, length, take, All, ◌>>=◌, Bytes, codes, lift_codes, same, has_prefix,
}

abbrev pub Entry : Type 0
Entry = Bytes × List Bytes

abbrev pub Header : Type 0
Header = List Entry

-- the value of a map lookup, `none` where the key is missing
unfoldable pub lookup : Bytes → Header → Option (List Bytes)
lookup key [] = none
lookup key ((k, vs) ∷ h) = if same k key then some vs else lookup key h

-- assignment to a map key
unfoldable pub put : Bytes → List Bytes → Header → Header
put key vs [] = (key, vs) ∷ []
put key vs ((k, ws) ∷ h) = if same k key then (k, vs) ∷ h else (k, ws) ∷ put key vs h

unfoldable pub has : Header → Bytes → Bool
has self key = not (is_none (lookup key self))

unfoldable pub set : Header → Bytes → Bytes → Header
set self key val = put key (val ∷ []) self

-- the values at a key, the empty slice where it is missing
abbrev pub values_or_nil : Option (List Bytes) → List Bytes
values_or_nil none = []
values_or_nil (some vs) = vs

unfoldable pub add : Header → Bytes → Bytes → Header
unfolding has set
add self key val =
    if has self key
    then put key (values_or_nil (lookup key self) ++ val ∷ []) self
    else set self key val

-- `str += k + ", "` over the values
unfoldable pub accumulate : Bytes → List Bytes → Bytes
accumulate str [] = str
accumulate str (k ∷ ks) = accumulate (str ++ (k ++ codes ", ")) ks

-- `str[:len(str)-2]`, which panics below two bytes
unfoldable pub drop_comma : Bytes → Option Bytes
drop_comma str = if ltb (length str) 2 then none else some (take (length str - 2) str)

unfoldable pub get_values : Option (List Bytes) → Bytes → Option Bytes
unfolding accumulate drop_comma
get_values none fallback = some fallback
get_values (some val) fallback = drop_comma (accumulate [] val)

unfoldable pub get : Header → Bytes → Bytes → Option Bytes
unfolding get_values
get self key fallback = get_values (lookup key self) fallback

abbrev pub is_empty : Bytes → Bool
is_empty [] = true
is_empty (_ ∷ _) = false

-- the loop of MessageID over the spellings of the header's name
unfoldable pub first_value : Header → List Bytes → Option Bytes
first_value self [] = some []
first_value self (hdr ∷ hdrs) =
    let rest = first_value self hdrs in do v ← get self hdr []; if is_empty v then rest else some v

abbrev pub message_id_names : List Bytes
message_id_names = lift_codes ("MessageID" ∷ "Message-ID" ∷ "Message-Id" ∷ "message-id" ∷ [])

unfoldable pub message_id : Header → Option Bytes
unfolding first_value
message_id self = first_value self message_id_names

unfoldable pub is_multipart : Header → Option Bool
is_multipart self = do
  v ← get self (codes "Content-Type") (codes "text/plain")
  some (has_prefix (codes "multipart/mixed") v)

unfoldable pub is_signed : Header → Option Bool
is_signed self = do v ← get self (codes "X-Pubkey-Ed25519") []; some (not (is_empty v))

unfoldable pub newsgroup : Header → Option Bytes
newsgroup self = get self (codes "Newsgroups") (codes "overchan.discard")

unfoldable pub append_path : Header → Bytes → Option Header
unfolding set
append_path self name = do
  p ← get self (codes "Path") name
  some (set self (codes "Path") (if same p name then p else name ++ (b'!' ∷ p)))

-- No key has an empty slice of values.
abbrev pub IsWellFormed : Header → Type 0
IsWellFormed = All (λ (e : Entry). e.1 ≢ [])
