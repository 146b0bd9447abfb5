-- ===== src/Board/Thread/Counts.antt =====
-- What Truncate and Replies of a thread count, in src/srnd/model_mem.go.
use srndv.Base.{
  ℕ, zero, suc, ◌+◌, ◌-◌, ◌≤◌, ◌≡◌, refl, ap, ◌∙◌, true, false, Option, some, List, [], ◌∷◌, ◌++◌,
  take, ltb, length, drop, length-drop, map, arith,
}
use srndv.Board.{Post, num_attachments, set_index, post_index}
use srndv.Board.Thread.{
  Thread, post_count, count_images, image_count, place_posts, present, replies, shown_posts,
  truncate_thread, missing_post_count, missing_image_count,
}

-- the files of posts
abbrev pub total : List Post → ℕ
total [] = 0
total (p ∷ ps) = num_attachments p + total ps

count_images-some : (ps : List Post) → count_images (map some ps) ≡ some (total ps)
unfolding count_images
count_images-some [] = refl
count_images-some (p ∷ ps) = rw (count_images-some ps) refl

length-some : (ps : List Post) → length (map some ps) ≡ length ps
length-some [] = refl
length-some (p ∷ ps) = ap suc (length-some ps)

drop-some : (n : ℕ) (ps : List Post) → drop n (map some ps) ≡ map some (drop n ps)
drop-some zero ps = refl
drop-some (suc n) [] = refl
drop-some (suc n) (p ∷ ps) = drop-some n ps

total-drop : (n : ℕ) (ps : List Post) → total (drop n ps) ≤ total ps
total-drop zero ps = omega arith
total-drop (suc n) [] = omega arith
total-drop (suc n) (p ∷ ps) = omega (arith, total-drop n ps)

-- the posts that are shown of six posts or more
abbrev shown : Post → List Post → List Post
shown p ps = p ∷ drop (length ps - 5) ps

shown_posts-some :
    (p : Post) (ps : List Post)
    → 5 ≤ length ps
    → shown_posts (some p ∷ map some ps) ≡ map some (shown p ps)
shown_posts-some p ps h =
    let hidden : suc (length (map some ps)) - 5 ≡ suc (length ps - 5) =
      omega (arith, length-some ps, h) in
    ap (λ n. some p ∷ drop n (some p ∷ map some ps)) hidden
    ∙ ap (◌∷◌ (some p)) (drop-some (length ps - 5) ps)

take-drop : (n : ℕ) (ps : List Post) → ps ≡ take n ps ++ drop n ps
take-drop zero ps = refl
take-drop (suc n) [] = refl
take-drop (suc n) (p ∷ ps) = ap (◌∷◌ p) (take-drop n ps)

-- Of a thread of more than five posts, none of them nil, six are shown: the first and the last
-- five, in their order. The files that are not shown are counted rightly, but the posts that are
-- not shown are counted one too many: those that are shown and those that are missing make one
-- more than there are.
pub truncate_thread_lem :
    (self : Thread) (p : Post) (ps : List Post)
    → self.posts ≡ some p ∷ map some ps
    → 5 ≤ length ps
    → (t : Thread) × (truncate_thread self ≡ some t)
      × ((hidden : List Post) × (last : List Post) × (ps ≡ hidden ++ last)
          × (length last ≡ 5)
          × (t.posts ≡ some p ∷ map some last))
      × (post_count t + missing_post_count t ≡ post_count self + 1)
      × ((images : ℕ) × (image_count t ≡ some images)
          × (image_count self ≡ some (images + missing_image_count t)))
unfolding truncate_thread post_count missing_post_count missing_image_count image_count
truncate_thread_lem self p ps e h =
    let images = total (shown p ps) in
    let t : Thread = record {
      allow_files = self.allow_files;
      prefix = self.prefix;
      links = self.links;
      posts = map some (shown p ps);
      dirty = false;
      truncated_post_count = suc (length ps) - 5;
      truncated_image_count = total (p ∷ ps) - images;
    } in
    let hidden = length ps - 5 in
    let five : length (drop hidden ps) ≡ 5 = length-drop hidden ps ∙ omega (arith, h) in
    let six : length (map some (shown p ps)) ≡ 6 =
      length-some (shown p ps) ∙ ap suc (length-drop (length ps - 5) ps ∙ omega (arith, h)) in
    let long : ltb 5 (suc (length (map some ps))) ≡ true = ground (arith, length-some ps, h) in
    let counted : total (p ∷ ps) ≡ images + (total (p ∷ ps) - images) =
      omega (arith, total-drop (length ps - 5) ps) in
    (
      t,
      rw e (
          rw long (
            rw (shown_posts-some p ps h) (
              rw (count_images-some (shown p ps))
                (rw (count_images-some (p ∷ ps)) (rw (length-some ps) refl))))),
      (take hidden ps, drop hidden ps, take-drop hidden ps, five, refl),
      omega (arith, six, ap length e, length-some ps, h),
      (images, count_images-some (shown p ps), rw e (count_images-some (p ∷ ps) ∙ ap some counted)),
    )

-- the numbers from n on
abbrev pub count_from : ℕ → List Post → List ℕ
count_from n [] = []
count_from n (p ∷ ps) = n ∷ count_from (suc n) ps

placed : ℕ → List Post → List Post
placed n [] = []
placed n (p ∷ ps) = set_index n p ∷ placed (suc n) ps

place_posts-some : (n : ℕ) (ps : List Post) → place_posts n (map some ps) ≡ map some (placed n ps)
unfolding place_posts placed
place_posts-some n [] = refl
place_posts-some n (p ∷ ps) = ap (◌∷◌ (some (set_index n p))) (place_posts-some (suc n) ps)

present-some : (ps : List Post) → present (map some ps) ≡ ps
present-some [] = refl
present-some (p ∷ ps) = ap (◌∷◌ p) (present-some ps)

numbers-placed : (n : ℕ) (ps : List Post) → map post_index (placed n ps) ≡ count_from (n + 1) ps
unfolding placed post_index set_index
numbers-placed n [] = refl
numbers-placed n (p ∷ ps) =
    let next : suc n + 1 ≡ suc (n + 1) = omega arith in
    ap (◌∷◌ (n + 1)) (numbers-placed (suc n) ps ∙ ap (λ k. count_from k ps) next)

-- The replies of a thread without nil posts are numbered from 2 on in their order, and the first
-- post keeps its index.
pub replies_numbered :
    (self : Thread) (p : Post) (ps : List Post)
    → self.posts ≡ some p ∷ map some ps
    → (map post_index (replies self).1 ≡ count_from 2 ps)
      × ((qs : List (Option Post)) × ((replies self).0.posts ≡ some p ∷ qs))
unfolding replies
replies_numbered self p ps e = rw e (
    rw (place_posts-some 1 ps)
      (rw (present-some (placed 1 ps)) (numbers-placed 1 ps, (map some (placed 1 ps), refl))))
