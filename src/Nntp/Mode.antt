-- ===== src/Nntp/Mode.antt =====
-- lib/nntp/mode.go: the modes of a connection and the command that selects one.
use srndv.Base.{
  ◌≡◌, refl, sym, ap, ◌∙◌, Bool, true, ◌&&◌, ◌||◌, Option, none, some, List, [], ◌∷◌, ◌++◌, ◌==◌,
  Bytes, codes, same, has_prefix, to_upper, split, count_byte, arith, count_byte-append,
  split-append, split_free,
}

abbrev pub mode_reader : Bytes
mode_reader = codes "reader"

abbrev pub mode_stream : Bytes
mode_stream = codes "stream"

abbrev pub mode_unset : Bytes
mode_unset = []

-- Mode.Is and ModeCommand.Is: equal in upper case
unfoldable pub is_mode : Bytes → Bytes → Bool
unfolding to_upper same
is_mode m other = same (to_upper m) (to_upper other)

unfoldable pub mode_valid : Bytes → Bool
unfolding is_mode
mode_valid m = is_mode m mode_reader || is_mode m mode_stream

abbrev pub command_mode_reader : Bytes
command_mode_reader = codes "mode reader"

abbrev pub command_mode_stream : Bytes
command_mode_stream = codes "mode stream"

unfoldable pub mode_command_valid : Bytes → Bool
unfolding to_upper has_prefix count_byte
mode_command_valid m = count_byte 32 (to_upper m) == 1 && has_prefix (codes "MODE ") (to_upper m)

abbrev second : List Bytes → Option Bytes
second (_ ∷ (w ∷ _)) = some w
second _ = none

-- ModeCommand.Mode; `none` is the panic of an index out of range
unfoldable pub mode_command_mode : Bytes → Option Bytes
unfolding to_upper split
mode_command_mode m = second (split 32 (to_upper m))

has_prefix-splits : (p s : Bytes) → has_prefix p s ≡ true → (w : Bytes) × (s ≡ p ++ w)
unfolding has_prefix
has_prefix-splits [] s h = (s, refl)
has_prefix-splits (c ∷ ps) [] h = cc
has_prefix-splits (c ∷ ps) (d ∷ s) h =
    let (w, e) = has_prefix-splits ps s (ground arith) in (w, ground arith)

mode_word : (w : Bytes) → count_byte 32 (codes "MODE " ++ w) ≡ 1 → count_byte 32 w ≡ 0
unfolding count_byte
mode_word w h = omega (arith, count_byte-append 32 (codes "MODE ") w)

mode_one_space : (m : Bytes) → mode_command_valid m ≡ true → count_byte 32 (to_upper m) ≡ 1
unfolding mode_command_valid
mode_one_space m h = ground arith

second-split : (w : Bytes) → count_byte 32 w ≡ 0 → second (split 32 (codes "MODE " ++ w)) ≡ some w
unfolding count_byte
second-split w free =
    ap second
      (split-append 32 (codes "MODE") w refl ∙ ap (◌∷◌ (codes "MODE")) (split_free 32 w free))

mode_word_of :
    (m w : Bytes)
    → to_upper m ≡ codes "MODE " ++ w
    → mode_command_valid m ≡ true
    → count_byte 32 w ≡ 0
mode_word_of m w e h = mode_word w (sym (ap (count_byte 32) e) ∙ mode_one_space m h)

mode_of_word :
    (m w : Bytes)
    → to_upper m ≡ codes "MODE " ++ w
    → count_byte 32 w ≡ 0
    → mode_command_mode m ≡ some w
unfolding mode_command_mode
mode_of_word m w e free = ap (λ s. second (split 32 s)) e ∙ second-split w free

-- Mode of a valid mode command does not panic: it is the word behind "MODE " in the upper-case
-- command, and holds no space.
pub mode_command_mode_lem :
    (m : Bytes)
    → mode_command_valid m ≡ true
    → (w : Bytes) × (mode_command_mode m ≡ some w)
      × (to_upper m ≡ codes "MODE " ++ w)
      × (count_byte 32 w ≡ 0)
unfolding mode_command_valid
mode_command_mode_lem m h =
    let (w, e) = has_prefix-splits (codes "MODE ") (to_upper m) (ground arith) in
    let free = mode_word_of m w e h in (w, mode_of_word m w e free, e, free)
