-- ===== src/Daemon/Feeds/Lowest.antt =====
-- lowestBacklogConnection of src/srnd/daemon.go: when it finds the smallest backlog, and when not.
use srndv.Base.{
  ℕ, ◌≤◌, ◌<◌, ◌≡◌, ◌⊎◌, inl, inr, refl, true, false, some, List, [], ◌∷◌, ltb, arith, All,
  Bool-cases,
}
use srndv.Daemon.Feeds.{Link, lt64, lowest_step, lowest_from, lowest_backlog_connection}

-- a backlog that is a positive int64
abbrev pub IsBusy : Link → Type 0
IsBusy c = (0 < c.backlog) × (c.backlog < 9223372036854775808)

abbrev pub IsIn : Link → List Link → Type 0
IsIn c [] = ⊥
IsIn c (d ∷ ds) = (c ≡ d) ⊎ IsIn c ds

lt64_lem : (a b : ℕ) → a < 9223372036854775808 → b < 9223372036854775808 → lt64 a b ≡ ltb a b
lt64_lem a b ha hb = ground arith

abbrev AtMost : Link → List Link → Type 0
AtMost c = All (λ (d : Link). c.backlog ≤ d.backlog)

step_lower :
    (a b : ℕ)
    → a < 9223372036854775808
    → b < 9223372036854775808
    → 0 < a
    → lowest_step a b ≡ true
    → b ≤ a
step_lower a b ha hb p e = ground arith

step_kept :
    (a b : ℕ) → a < 9223372036854775808 → b < 9223372036854775808 → lowest_step a b ≡ false → a ≤ b
step_kept a b ha hb e = ground arith

lowest_from_lem :
    (c : Link) (cs : List Link)
    → IsBusy c
    → All IsBusy cs
    → (m : Link) × (lowest_from c.backlog (some c) cs ≡ some m)
      × ((m ≡ c) ⊎ IsIn m cs)
      × (m.backlog ≤ c.backlog)
      × AtMost m cs
unfolding lowest_from
lowest_from_lem c [] b h = (c, refl, inl refl, omega arith, tt)
lowest_from_lem c (d ∷ ds) b h = elim (Bool-cases (lowest_step c.backlog d.backlog)) [
  | inl e ↦
      let (m, eq, i, le, rest) = lowest_from_lem d ds h.0 h.1 in
      (
        m,
        rw e eq,
        inr i,
        omega (arith, le, step_lower c.backlog d.backlog b.1 h.0.1 b.0 e),
        (le, rest),
      )
  | inr e ↦
      let (m, eq, i, le, rest) = lowest_from_lem c ds b h.1 in
      (
        m,
        rw e eq,
        elim i [ inl x ↦ inl x | inr x ↦ inr (inr x) ],
        le,
        (omega (arith, le, step_kept c.backlog d.backlog b.1 h.0.1 e), rest),
      )
]

-- Among connections that all have something to send, lowestBacklogConnection finds one of them
-- with the smallest backlog.
pub lowest_backlog_lem :
    (c : Link) (cs : List Link)
    → All IsBusy (c ∷ cs)
    → (m : Link) × (lowest_backlog_connection (c ∷ cs) ≡ some m)
      × IsIn m (c ∷ cs)
      × All (λ (d : Link). m.backlog ≤ d.backlog) (c ∷ cs)
unfolding lowest_backlog_connection lowest_from
lowest_backlog_lem c cs h =
    let (m, eq, i, le, rest) = lowest_from_lem c cs h.0 h.1 in (m, eq, i, (le, rest))

-- An idle connection is passed over: 0 stands for no connection yet, so whichever connection
-- follows is taken for the smaller one, however much it has to send.
pub idle_passed_over :
    (idle c : Link) → idle.backlog ≡ 0 → lowest_backlog_connection (idle ∷ c ∷ []) ≡ some c
unfolding lowest_backlog_connection lowest_from
idle_passed_over idle c h = rw h refl
