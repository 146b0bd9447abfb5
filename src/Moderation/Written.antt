-- ===== src/Moderation/Written.antt =====
-- The text that wrapModMessage of src/srnd/mod.go writes, read by the engine.
use srndv.Base.{
  ◌≡◌, ap, refl, ◌∙◌, Option, none, some, List, [], ◌∷◌, ◌++◌, ◌>>=◌, Bytes, same, split,
  split-append, count_byte, All,
}
use srndv.Moderation.{
  ModEngine, ModEvent, Moderated, action, trim_front, trim_end, write_to, wrap_mod_message,
  moderate_event, moderate_lines,
}

-- the text of an event that stands on one line, without blanks at its ends
pub record IsLine (ev : ModEvent) : Type 0 where
  pub one_line : count_byte 10 ev ≡ 0
  pub trimmed : trim_end (trim_front ev) ≡ ev

split-write_to :
    (mm : List ModEvent) → All IsLine mm → split 10 (write_to mm (10 ∷ [])) ≡ mm ++ [] ∷ []
unfolding write_to
split-write_to [] h = unfold split in refl
split-write_to (ev ∷ mm) h =
    split-append 10 ev (write_to mm (10 ∷ [])) h.0.one_line ∙ ap (◌∷◌ ev) (split-write_to mm h.1)

module _ {W : Type 0} (e : ModEngine W) (pubkey : Bytes) where
  -- the events one after the other, up to a panic
  abbrev pub moderate_events : List ModEvent → Moderated W → Option (Moderated W)
  moderate_events [] st = some st
  moderate_events (ev ∷ mm) st = moderate_event e pubkey ev st >>= moderate_events mm

  last_line : (st : Moderated W) → moderate_lines e pubkey ([] ∷ []) st ≡ some st
  unfolding moderate_lines moderate_event action split same trim_front trim_end
  last_line st = refl

  bind_cong :
      (o : Option (Moderated W)) (f g : Moderated W → Option (Moderated W))
      → ((st : Moderated W) → f st ≡ g st)
      → (o >>= f) ≡ (o >>= g)
  bind_cong none f g h = refl
  bind_cong (some st) f g h = h st

  lines_lem :
      (mm : List ModEvent) (st : Moderated W)
      → All IsLine mm
      → moderate_lines e pubkey (mm ++ [] ∷ []) st ≡ moderate_events mm st
  unfolding moderate_lines
  lines_lem [] st h = last_line st
  lines_lem (ev ∷ mm) st h =
      rw h.0.trimmed (bind_cong (moderate_event e pubkey ev st) _ _ (λ st'. lines_lem mm st' h.1))

  -- The engine carries out of the text of a wrapped message exactly the events it was made of, in
  -- their order, if each of them stands on one line and has no blanks at its ends.
  pub moderate_lines-wrap_mod_message :
      (msgid date : Bytes) (mm : List ModEvent) (st : Moderated W)
      → All IsLine mm
      → moderate_lines e pubkey (split 10 (wrap_mod_message msgid date mm).1) st
        ≡ moderate_events mm st
  unfolding wrap_mod_message
  moderate_lines-wrap_mod_message msgid date mm st h = rw (split-write_to mm h) (lines_lem mm st h)
