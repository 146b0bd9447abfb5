-- ===== src/Board/Posts.antt =====
-- Truncated posts and the front end of a post, of src/srnd/model_mem.go.
use srndv.Base.{
  ℕ, ◌+◌, ◌≤◌, ◌≡◌, refl, sym, ap, ◌∙◌, Bool, true, false, Option, none, some, [], ◌∷◌, ◌++◌, ltb,
  if◌then◌else◌, length, take, length-append, length-take, take-append, Bytes, codes, same, arith,
  Bool-cases, inl, inr,
}
use srndv.Board.{
  Post, shorten, truncation_mark, truncate_post, after_last, found_or, or_all, frontend_of_path,
}
use srndv.Header.Laws.{prepended}

take_of_take : (n : ℕ) (s t : Bytes) → n ≤ length s → take n (take n s ++ t) ≡ take n s
take_of_take n s t h =
    ap (λ k. take k (take n s ++ t)) (sym (length-take n s ∙ omega (arith, h)))
    ∙ take-append (take n s) t

shorten_twice : (n : ℕ) (mark s : Bytes) → shorten n mark (shorten n mark s) ≡ shorten n mark s
unfolding shorten
shorten_twice n mark s = elim (Bool-cases (ltb n (length s))) [
  | inr short ↦ rw short (rw short refl)
  | inl long ↦ rw long (shorten_cut (ltb n (length (take n s ++ mark))) (ground arith))
]
  where
    shorten_cut :
        (b : Bool)
        → n ≤ length s
        → (if b then take n (take n s ++ mark) ++ mark else take n s ++ mark) ≡ take n s ++ mark
    shorten_cut true h = ap (λ t. t ++ mark) (take_of_take n s mark h)
    shorten_cut false h = refl

length-shorten : (n : ℕ) (mark s : Bytes) → length (shorten n mark s) ≤ n + length mark
unfolding shorten
length-shorten n mark s = ground (arith, length-append (take n s) mark, length-take n s)

-- The names, subjects and messages of truncated posts are bounded by 103, 103 and 522 bytes, and a
-- post that is truncated again stays as it is.
pub truncate_post_lem :
    (self : Post)
    → (truncate_post (truncate_post self) ≡ truncate_post self)
      × (length (truncate_post self).post_name ≤ 103)
      × (length (truncate_post self).post_subject ≤ 103)
      × (length (truncate_post self).post_message ≤ 522)
unfolding truncate_post
truncate_post_lem self = (
  simp shorten_twice,
  omega (arith, length-shorten 100 (codes "...") self.post_name),
  omega (arith, length-shorten 100 (codes "...") self.post_subject),
  omega (arith, length-shorten 500 truncation_mark self.post_message),
)

after_last-append :
    (b : ℕ) (a p : Bytes) → after_last b (a ++ (b ∷ p)) ≡ some (or_all p (after_last b p))
unfolding after_last
after_last-append b [] p = found_at (after_last b p)
  where
    found_at : (o : Option Bytes) → found_or b b p o ≡ some (or_all p o)
    found_at none = ground arith
    found_at (some t) = refl
after_last-append b (c ∷ a) p = rw (after_last-append b a p) refl

-- A server that puts its name in front of the path of an article, as AppendPath does, does not
-- change the front end that is shown for its post.
pub frontend_of_path-prepended :
    (name path : Bytes) → frontend_of_path (prepended name path) ≡ frontend_of_path path
unfolding frontend_of_path
frontend_of_path-prepended name path = elim (Bool-cases (same path name)) [
  | inl y ↦ rw y refl
  | inr n ↦ rw n (rw (after_last-append b'!' name path) refl)
]
