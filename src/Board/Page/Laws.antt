-- ===== src/Board/Page/Laws.antt =====
-- What PutThread does to a page, in src/srnd/model_mem.go.
use srndv.Base.{
  ◌≡◌, refl, sym, ap, ◌∙◌, false, Option, none, some, List, [], ◌∷◌, ◌>>=◌, All, Bytes, same,
  same_iff, same_refl, arith, if◌then◌else◌, Bool-cases, inl, inr,
}
use srndv.Board.Thread.{Thread}
use srndv.Board.Page.{thread_id, get_thread, put_under, put_thread}

-- a thread that has a first post
abbrev pub HasId : Thread → Type 0
HasId th = (id : Bytes) × (thread_id th ≡ some id)

-- what is found after a thread was put, for what was found before
abbrev pub swap : Thread → Option Thread → Option Thread
swap new none = none
swap new (some th) = some new

abbrev pub IsPut : Thread → Bytes → List Thread → List Thread → Type 0
IsPut new id ths ths' =
    ((j : Bytes) → same id j ≡ false → get_thread j ths' ≡ get_thread j ths)
    × (get_thread id ths' ≡ (get_thread id ths >>= (λ found. some (swap new found))))

put_under_lem :
    (new : Thread) (id : Bytes) (ths : List Thread)
    → thread_id new ≡ some id
    → All HasId ths
    → (ths' : List Thread) × (put_under id new ths ≡ some ths') × IsPut new id ths ths'
unfolding put_under get_thread
put_under_lem new id [] e h = ([], refl, (λ j n. refl, refl))
put_under_lem new id (th ∷ ths) e ((i, k), h) = elim (Bool-cases (same id i)) [
  | inl y ↦
      let there : thread_id th ≡ some id = k ∙ ap some (sym ((same_iff id i).0 y)) in
      (
        new ∷ ths,
        rw k (rw y refl),
        (λ j n. rw e (rw there (rw n refl)), rw e (rw there (rw same_refl refl))),
      )
  | inr n ↦
      let (rest, p, (others, own)) = put_under_lem new id ths e h in
      let n' : same i id ≡ false = ground (arith, same_iff i id, same_iff id i) in
      (
        th ∷ rest,
        rw k (rw n (rw p refl)),
        (
          λ j m. rw k (ap (λ r. if same i j then some (some th) else r) (others j m)),
          rw k (rw n' own),
        ),
      )
]

-- On a page whose threads all have a first post PutThread does not panic: what is found under any
-- other id than the new thread's is as before, and under its own id the new thread is found where
-- there was one before, and no thread where there was none.
pub put_thread_lem :
    (new : Thread) (id : Bytes) (ths : List Thread)
    → thread_id new ≡ some id
    → All HasId ths
    → (ths' : List Thread) × (put_thread new ths ≡ some ths') × IsPut new id ths ths'
unfolding put_thread get_thread
put_thread_lem new id [] e h = ([], refl, (λ j n. refl, refl))
put_thread_lem new id (th ∷ ths) e h = rw e (put_under_lem new id (th ∷ ths) e h)
