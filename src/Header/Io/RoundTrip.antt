-- ===== src/Header/Io/RoundTrip.antt =====
-- WriteHeader and then ReadHeader of lib/nntp/message/header.go.
use srndv.Base.{
  ◌≡◌, ◌≢◌, ◌↔◌, refl, sym, ap, ◌∙◌, true, false, none, some, List, [], ◌∷◌, ◌++◌, map, Bytes, same,
  same_iff, same_refl, count_byte, All, append_assoc, append-nil, arith,
}
use srndv.Header.{Entry, Header, lookup, put, has, set, add, IsWellFormed}
use srndv.Header.Io.{Read, read_from, read_header, write_header, delim}
use srndv.Header.Io.Steps.{despaced, at_key, add_values, add_entries, IsWritable, read_from-entries}

-- no two entries have one key, as in a Go map
abbrev pub IsAbsent : Bytes → Header → Type 0
IsAbsent k = All (λ (e : Entry). same e.0 k ≡ false)

abbrev pub HasDistinctKeys : Header → Type 0
HasDistinctKeys [] = Unit
HasDistinctKeys ((k, vs) ∷ h) = IsAbsent k h × HasDistinctKeys h

lookup-absent : (k : Bytes) (h : Header) → IsAbsent k h → lookup k h ≡ none
unfolding lookup
lookup-absent k [] a = refl
lookup-absent k ((j, vs) ∷ h) a = rw a.0 (lookup-absent k h a.1)

lookup-last :
    (k : Bytes) (vs : List Bytes) (h : Header)
    → IsAbsent k h
    → lookup k (h ++ (k, vs) ∷ []) ≡ some vs
unfolding lookup
lookup-last k vs [] a = rw same_refl
lookup-last k vs ((j, ws) ∷ h) a = rw a.0 (lookup-last k vs h a.1)

put-absent :
    (k : Bytes) (vs : List Bytes) (h : Header) → IsAbsent k h → put k vs h ≡ h ++ (k, vs) ∷ []
unfolding put
put-absent k vs [] a = refl
put-absent k vs ((j, ws) ∷ h) a = rw a.0 (ap (◌∷◌ (j, ws)) (put-absent k vs h a.1))

put-last :
    (k : Bytes) (vs ws : List Bytes) (h : Header)
    → IsAbsent k h
    → put k vs (h ++ (k, ws) ∷ []) ≡ h ++ (k, vs) ∷ []
unfolding put
put-last k vs ws [] a = rw same_refl
put-last k vs ws ((j, us) ∷ h) a = rw a.0 (ap (◌∷◌ (j, us)) (put-last k vs ws h a.1))

add-absent : (k v : Bytes) (h : Header) → IsAbsent k h → add h k v ≡ h ++ (k, v ∷ []) ∷ []
unfolding add has set
add-absent k v h a = rw (lookup-absent k h a) (put-absent k (v ∷ []) h a)

add-last :
    (k v : Bytes) (vs : List Bytes) (h : Header)
    → IsAbsent k h
    → add (h ++ (k, vs) ∷ []) k v ≡ h ++ (k, vs ++ v ∷ []) ∷ []
unfolding add has set
add-last k v vs h a = rw (lookup-last k vs h a) (put-last k (vs ++ v ∷ []) vs h a)

add_values-last :
    (k : Bytes) (vs us : List Bytes) (h : Header)
    → IsAbsent k h
    → add_values (h ++ (k, us) ∷ []) k vs ≡ h ++ (k, us ++ map despaced vs) ∷ []
unfolding add_values
add_values-last k [] us h a = rw append-nil
add_values-last k (v ∷ vs) us h a =
    rw (add-last k (despaced v) us h a)
      (add_values-last k vs (us ++ despaced v ∷ []) h a ∙ rw append_assoc)

add_values-absent :
    (k : Bytes) (vs : List Bytes) (h : Header)
    → vs ≢ []
    → IsAbsent k h
    → add_values h k vs ≡ h ++ (k, map despaced vs) ∷ []
unfolding add_values
add_values-absent k [] h ne a = absurd (ne refl)
add_values-absent k (v ∷ vs) h ne a =
    rw (add-absent k (despaced v) h a) (add_values-last k vs (despaced v ∷ []) h a)

same_sym : (a b : Bytes) → same a b ≡ false → same b a ≡ false
same_sym a b h = ground (arith, same_iff a b, same_iff b a)

IsAbsent-append :
    (k j : Bytes) (vs : List Bytes) (h : Header)
    → IsAbsent k h
    → same j k ≡ false
    → IsAbsent k (h ++ (j, vs) ∷ [])
IsAbsent-append k j vs [] a e = (e, tt)
IsAbsent-append k j vs (x ∷ h) a e = (a.0, IsAbsent-append k j vs h a.1 e)

-- no key of the one is a key of the other
abbrev AreApart : Header → Header → Type 0
AreApart hdr = All (λ (e : Entry). IsAbsent e.0 hdr)

AreApart-append :
    (k : Bytes) (vs : List Bytes) (hdr more : Header)
    → IsAbsent k more
    → AreApart hdr more
    → AreApart (hdr ++ (k, vs) ∷ []) more
AreApart-append k vs hdr [] a d = tt
AreApart-append k vs hdr ((j, ws) ∷ more) a d =
    (IsAbsent-append j k vs hdr d.0 (same_sym j k a.0), AreApart-append k vs hdr more a.1 d.1)

abbrev pub despaced_entry : Entry → Entry
despaced_entry e = (e.0, map despaced e.1)

add_entries-apart :
    (more hdr : Header)
    → IsWellFormed more
    → HasDistinctKeys more
    → AreApart hdr more
    → add_entries hdr more ≡ hdr ++ map despaced_entry more
unfolding add_entries
add_entries-apart [] hdr w d a = sym (append-nil hdr)
add_entries-apart ((k, vs) ∷ more) hdr w d a = rw (add_values-absent k vs hdr w.0 a.0) (
    add_entries-apart more (hdr ++ (k, map despaced vs) ∷ []) w.1 d.1
      (AreApart-append k (map despaced vs) hdr more d.0 a.1)
    ∙ append_assoc hdr ((k, map despaced vs) ∷ []) (map despaced_entry more))

AreApart-nil : (h : Header) → AreApart [] h
AreApart-nil [] = tt
AreApart-nil (e ∷ h) = (tt, AreApart-nil h)

read_from_end :
    (hdr : Header) (body : Bytes)
    → read_from (at_key hdr []) (delim ∷ body) ≡ record { complete = true; hdr = hdr; rest = body }
unfolding read_from
read_from_end hdr body = refl

-- What WriteHeader writes for a header in any order of its entries, ReadHeader reads back whole,
-- in that order and leaving the body unread, but with every space in every value gone. The header
-- has distinct keys, no empty slice, no colon or newline in a key and no newline in a value.
pub read_header-write_header :
    (h : Header) (body : Bytes)
    → IsWellFormed h
    → HasDistinctKeys h
    → IsWritable h
    → read_header (write_header h ++ body)
      ≡ record { complete = true; hdr = map despaced_entry h; rest = body }
unfolding read_header write_header
read_header-write_header h body w d p = rw append_assoc (
    read_from-entries h [] (delim ∷ body) p
    ∙ read_from_end (add_entries [] h) body
    ∙ ap (λ hdr. record { complete = true; hdr = hdr; rest = body })
        (add_entries-apart h [] w d (AreApart-nil h)))

despaced_free : (v : Bytes) → count_byte 32 v ≡ 0 → despaced v ≡ v
unfolding despaced count_byte
despaced_free [] h = refl
despaced_free (c ∷ cs) h = ground (arith, despaced_free cs)

count_byte-despaced : (v : Bytes) → count_byte 32 (despaced v) ≡ 0
unfolding despaced count_byte
count_byte-despaced [] = refl
count_byte-despaced (c ∷ cs) = ground (arith, count_byte-despaced cs)

free_of_despaced : (v : Bytes) → despaced v ≡ v → count_byte 32 v ≡ 0
free_of_despaced v e = sym (ap (count_byte 32) e) ∙ count_byte-despaced v

first_value_of : (k v w : Bytes) → ◌≡◌ {A = Header} ((k, v ∷ []) ∷ []) ((k, w ∷ []) ∷ []) → v ≡ w
first_value_of k v w e = cc

-- A header of one value is read back as it was written exactly when the value holds no space: the
-- loop that is to skip the spaces behind the colon skips every space of the value.
pub value_read_back :
    (k v body : Bytes)
    → count_byte 58 k ≡ 0
    → count_byte delim k ≡ 0
    → count_byte delim v ≡ 0
    → ((read_header (write_header ((k, v ∷ []) ∷ []) ++ body)).hdr ≡ (k, v ∷ []) ∷ [])
      ↔ (count_byte 32 v ≡ 0)
value_read_back k v body hk nk nv =
    let h : Header = (k, v ∷ []) ∷ [] in
    let round =
      ap (λ (r : Read). r.hdr)
        (read_header-write_header h body ((λ e. cc e), tt) (tt, tt) ((hk, nk, (nv, tt)), tt)) in
    (
      λ e. free_of_despaced v (first_value_of k (despaced v) v (sym round ∙ e)),
      λ f. round ∙ ap (λ w. (k, w ∷ []) ∷ []) (despaced_free v f),
    )
