-- ===== src/Examples/Idents.antt =====
-- Message ids, newsgroups, modes and stream events, for lib/nntp.
use srndv.Base.{◌≡◌, ◌↔◌, refl, true, [], ◌∷◌, codes, arith, split, count_byte}
use srndv.Nntp.Ident.{
  is_local, is_host, span, match_class, match_byte, match_end, message_id_valid, message_id_line,
  gen_message_id,
}
use srndv.Nntp.Ident.Language.{SomeLine, IsMessageId, IsRun, message_id_valid_iff}
use srndv.Nntp.Ident.Generated.{gen_message_id-valid}
use srndv.Examples.{id}

pub id_valid : message_id_line id ≡ true
unfolding message_id_line match_class match_byte match_end span is_local is_host
id_valid = refl

message_id_valid_iff_example :
    ((message_id_valid id ≡ true) ↔ SomeLine IsMessageId (split 10 id))
    × (count_byte 10 id ≡ 0 → (message_id_valid id ≡ true) ↔ IsMessageId id)
message_id_valid_iff_example = message_id_valid_iff id

host_IsRun : IsRun is_host 2 63 (codes "srv")
unfolding is_host
host_IsRun = record { of_class = refl; long_enough = omega arith; short_enough = omega arith }

gen_message_id-valid_example :
    message_id_valid (gen_message_id (1 ∷ 2 ∷ 3 ∷ 4 ∷ []) 7 (codes "srv")) ≡ true
gen_message_id-valid_example =
    gen_message_id-valid (1 ∷ 2 ∷ 3 ∷ 4 ∷ []) 7 (codes "srv") refl (omega arith) host_IsRun
