-- ===== src/Examples/Markups.antt =====
-- A post with a greeting and a fence, without links, for src/srnd/markup.go.
use srndv.Base.{◌≡◌, [], Bytes, codes, Holds, is_none, split, arith}
use srndv.Markup.{memeposting}
use srndv.Markup.Escaped.{IsMarkup, text}
use srndv.Markup.Rendered.{IsTame, has_short_fence, memeposting_lem}

abbrev plain : Bytes → Bytes
plain s = s

abbrev no_link : Bytes → Bytes
no_link s = []

plain-IsTame : IsTame plain no_link (codes "/")
plain-IsTame = record { linked = λ s h. text s h; found = λ s. tt; safe_prefix = ground arith }

memeposting_lem_example :
    Holds IsMarkup (memeposting plain no_link (codes ">hi <b> ==x==") (codes "/"))
    × (is_none (memeposting plain no_link (codes ">hi <b> ==x==") (codes "/"))
        ≡ has_short_fence (split 10 (codes ">hi <b> ==x==")))
memeposting_lem_example =
    memeposting_lem plain no_link (codes "/") (codes ">hi <b> ==x==") plain-IsTame
