-- ===== src/Header/Laws.antt =====
-- What the operations of lib/nntp/message/header.go do to a header.
use srndv.Base.{
  ℕ, ◌-◌, ◌+◌, ◌≡◌, ◌≢◌, refl, sym, ap, ◌∙◌, false, Option, none, some, List, [], ◌∷◌, ◌++◌, ltb,
  if◌then◌else◌, length, Bytes, codes, same, same_iff, append_assoc, arith, inl, inr, Bool-cases,
  Option-cases, length-append, take-append,
}
use srndv.Header.{
  Header, lookup, put, has, set, add, values_or_nil, accumulate, drop_comma, get_values, get,
  append_path, IsWellFormed,
}

pub lookup-put :
    (key j : Bytes) (vs : List Bytes) (h : Header)
    → lookup j (put key vs h) ≡ (if same key j then some vs else lookup j h)
unfolding lookup put
lookup-put key j vs [] = refl
lookup-put key j vs ((k, ws) ∷ h) =
    ground (arith, same_iff k key, same_iff k j, same_iff key j, lookup-put key j vs h)

-- Add appends to the values of its own key and leaves every other key alone.
pub lookup-add :
    (self : Header) (key val j : Bytes)
    → lookup j (add self key val)
      ≡ (if same key j then some (values_or_nil (lookup key self) ++ val ∷ []) else lookup j self)
unfolding add has set
lookup-add self key val j = elim (Option-cases (lookup key self)) [
  | inl e ↦ rw e (lookup-put key j (val ∷ []) self)
  | inr (vs, e) ↦ rw e (lookup-put key j (vs ++ val ∷ []) self)
]

-- values joined by a comma and a space
abbrev pub comma_join : List Bytes → Bytes
comma_join [] = []
comma_join (v ∷ []) = v
comma_join (v ∷ (w ∷ ws)) = v ++ (codes ", " ++ comma_join (w ∷ ws))

accumulate-comma_join :
    (str v : Bytes) (vs : List Bytes)
    → accumulate str (v ∷ vs) ≡ (str ++ comma_join (v ∷ vs)) ++ codes ", "
unfolding accumulate
accumulate-comma_join str v [] = sym (append_assoc str v (codes ", "))
accumulate-comma_join str v (w ∷ ws) =
    accumulate-comma_join (str ++ (v ++ codes ", ")) w ws ∙ simp append_assoc

not_short : (n : ℕ) → ltb (n + 2) 2 ≡ false
not_short n = ground arith

drop_comma-append : (str : Bytes) → drop_comma (str ++ codes ", ") ≡ some str
unfolding drop_comma
drop_comma-append str =
    let long : length (str ++ codes ", ") ≡ length str + 2 = length-append str (codes ", ") in
    let back : length str + 2 - 2 ≡ length str = omega arith in
    rw (long, not_short, back) (ap some (take-append str (codes ", ")))

get_values-eq :
    (v : Bytes) (vs : List Bytes) (fallback : Bytes)
    → get_values (some (v ∷ vs)) fallback ≡ some (comma_join (v ∷ vs))
unfolding get_values
get_values-eq v vs fallback =
    rw (accumulate-comma_join [] v vs) (drop_comma-append (comma_join (v ∷ vs)))

pub lookup-ne-nil :
    (h : Header) (key : Bytes) {vs : List Bytes} → IsWellFormed h → lookup key h ≡ some vs → vs ≢ []
unfolding lookup
lookup-ne-nil [] key w e = cc
lookup-ne-nil ((k, ws) ∷ h) key w e = elim (Bool-cases (same k key)) [
  | inl hit ↦ λ nil. w.0 (ground arith)
  | inr miss ↦ lookup-ne-nil h key w.1 (rw miss at e)
]

-- what Get returns, described without the buffer
abbrev pub joined_or : Bytes → Option (List Bytes) → Bytes
joined_or fallback none = fallback
joined_or fallback (some vs) = comma_join vs

get_values-joined_or :
    (o : Option (List Bytes)) (fallback : Bytes)
    → ((vs : List Bytes) → o ≡ some vs → vs ≢ [])
    → get_values o fallback ≡ some (joined_or fallback o)
unfolding get_values
get_values-joined_or none fallback h = refl
get_values-joined_or (some []) fallback h = absurd (h [] refl refl)
get_values-joined_or (some (v ∷ vs)) fallback h = get_values-eq v vs fallback

-- On a header with no empty slice Get does not panic: it returns the values of the key joined by
-- a comma and a space, and the fallback where the key is missing.
pub get_joined :
    (self : Header) (key fallback : Bytes)
    → IsWellFormed self
    → get self key fallback ≡ some (joined_or fallback (lookup key self))
unfolding get
get_joined self key fallback w =
    get_values-joined_or (lookup key self) fallback (λ vs e. lookup-ne-nil self key w e)

pub put-IsWellFormed :
    (key : Bytes) (vs : List Bytes) (h : Header)
    → vs ≢ []
    → IsWellFormed h
    → IsWellFormed (put key vs h)
unfolding put
put-IsWellFormed key vs [] ne w = (ne, tt)
put-IsWellFormed key vs ((k, ws) ∷ h) ne w = elim (Bool-cases (same k key)) [
  | inl hit ↦ rw hit (ne, w.1)
  | inr miss ↦ rw miss (w.0, put-IsWellFormed key vs h ne w.1)
]

snoc-ne-nil {ℓ} : {A : Type ℓ} (xs : List A) (x : A) → xs ++ x ∷ [] ≢ []
snoc-ne-nil [] x = λ e. cc e
snoc-ne-nil (y ∷ ys) x = λ e. cc e

pub set-IsWellFormed :
    (self : Header) (key val : Bytes) → IsWellFormed self → IsWellFormed (set self key val)
unfolding set
set-IsWellFormed self key val w = put-IsWellFormed key (val ∷ []) self (snoc-ne-nil [] val) w

pub add-IsWellFormed :
    (self : Header) (key val : Bytes) → IsWellFormed self → IsWellFormed (add self key val)
unfolding add has
add-IsWellFormed self key val w = elim (Bool-cases (has self key)) [
  | inl hit ↦ rw hit (put-IsWellFormed key _ self (snoc-ne-nil _ val) w)
  | inr miss ↦ rw miss (set-IsWellFormed self key val w)
]

-- the Path that AppendPath sets, from the Path that was there
abbrev pub prepended : Bytes → Bytes → Bytes
prepended name p = if same p name then p else name ++ (b'!' ∷ p)

-- On a header with no empty slice AppendPath does not panic. It puts the name in front of the Path
-- that Get reads, once if that Path is the name or is missing, leaves every other key alone, and
-- leaves no empty slice.
pub append_path_lem :
    (self : Header) (name : Bytes)
    → IsWellFormed self
    → (h : Header) × (append_path self name ≡ some h)
      × IsWellFormed h
      × ((j : Bytes)
          → lookup j h ≡ (
              if same (codes "Path") j
              then some (prepended name (joined_or name (lookup (codes "Path") self)) ∷ [])
              else lookup j self))
unfolding append_path set
append_path_lem self name w =
    let p = joined_or name (lookup (codes "Path") self) in
    (
      set self (codes "Path") (prepended name p),
      rw (get_joined self (codes "Path") name w),
      set-IsWellFormed self (codes "Path") (prepended name p) w,
      λ j. lookup-put (codes "Path") j (prepended name p ∷ []) self,
    )
