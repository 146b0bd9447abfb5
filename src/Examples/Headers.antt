-- ===== src/Examples/Headers.antt =====
-- Headers, for lib/nntp/message.
use srndv.Base.{◌≡◌, refl, true, [], ◌∷◌, ◌++◌, map, Bytes, codes, same, count_byte}
use srndv.Header.{Header, IsWellFormed}
use srndv.Header.Io.{read_header, write_header}
use srndv.Header.Io.Steps.{IsWritable}
use srndv.Header.Io.RoundTrip.{HasDistinctKeys, despaced_entry, read_header-write_header}

abbrev path : Bytes
path = codes "Path"

abbrev subject : Bytes
subject = codes "Subject"

abbrev header : Header
header = (path, codes "a" ∷ []) ∷ (subject, codes "b c" ∷ codes "d" ∷ []) ∷ []

well_formed : IsWellFormed header
well_formed = ((λ e. cc e), ((λ e. cc e), tt))

distinct : HasDistinctKeys header
unfolding same
distinct = ((refl, tt), (tt, tt))

IsWritable-header : IsWritable header
unfolding count_byte
IsWritable-header = ((refl, refl, (refl, tt)), ((refl, refl, (refl, (refl, tt))), tt))

read_header-write_header_example :
    read_header (write_header header ++ codes "body")
    ≡ record { complete = true; hdr = map despaced_entry header; rest = codes "body" }
read_header-write_header_example =
    read_header-write_header header (codes "body") well_formed distinct IsWritable-header
