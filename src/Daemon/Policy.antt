-- ===== src/Daemon/Policy.antt =====
-- src/srnd/policy.go: the newsgroups that a feed carries. A Go map is ranged over in any order, so
-- the rules are a list, and what is said of them is said of the list without its order.
use srndv.Base.{
  ◌≡◌, refl, sym, ◌∙◌, Bool, true, false, not, ◌&&◌, ◌||◌, Option, none, some, List, [], ◌∷◌,
  if◌then◌else◌, Bytes, codes, same, arith, ap, ap₂, String, Bool-cases, inl, inr,
}
use mathlib.Core.List.{Permᴰ}
use mathlib.Core.Bool.{Bool-set}
use mathlib.Core.Quot
use mathlib.Core.Quot.{Quot}

pub record FeedPolicy : Type 0 where
  pub rules : List (Bytes × Bytes)

-- `matches` is regexp.MatchString, whose error ends the process: it is `none`.
module _ (matches : Bytes → Bytes → Option Bool) where
  -- the body of the loop: `result` so far, and the rules that come after this one
  abbrev pub rule_applied : (Bool → Option Bool) → Bytes → Bool → Option Bool → Option Bool
  rule_applied rest v result none = none
  rule_applied rest v result (some true) =
      if same v (codes "0")
      then some false
      else if same v (codes "1")
      then rest true
      else rest result
  rule_applied rest v result (some false) = rest result

  unfoldable pub allows_from : List (Bytes × Bytes) → Bytes → Bool → Option Bool
  allows_from [] newsgroup result = some result
  allows_from ((k, v) ∷ rules) newsgroup result =
      rule_applied (allows_from rules newsgroup) v result (matches k newsgroup)

  -- AllowsNewsgroup
  unfoldable pub allows_newsgroup : FeedPolicy → Bytes → Option Bool
  unfolding allows_from
  allows_newsgroup self newsgroup = allows_from self.rules newsgroup false

-- Is there a rule with this value whose pattern matches the newsgroup?
abbrev pub has_rule : (Bytes → Bytes → Bool) → String → List (Bytes × Bytes) → Bytes → Bool
has_rule valid value [] newsgroup = false
has_rule valid value ((k, v) ∷ rules) newsgroup =
    (valid k newsgroup && same v (codes value)) || has_rule valid value rules newsgroup

or_true : (b : Bool) → (b || true) ≡ true
or_true true = refl
or_true false = refl

or_swap : (a b c : Bool) → (a || (b || c)) ≡ (b || (a || c))
or_swap true true c = refl
or_swap true false c = refl
or_swap false b c = refl

-- the answer of a call that does not end the process
abbrev pub verdict : Option Bool → Bool
verdict none = false
verdict (some b) = b

module _ (valid : Bytes → Bytes → Bool) where
  -- patterns without an error
  abbrev pub sure : Bytes → Bytes → Option Bool
  sure k newsgroup = some (valid k newsgroup)

  allows_from_lem :
      (rules : List (Bytes × Bytes)) (newsgroup : Bytes) (result : Bool)
      → allows_from sure rules newsgroup result
        ≡ some (
            not (has_rule valid "0" rules newsgroup)
            && (result || has_rule valid "1" rules newsgroup))
  unfolding allows_from
  allows_from_lem [] newsgroup result = ground arith
  allows_from_lem ((k, v) ∷ rules) newsgroup result = elim (Bool-cases (valid k newsgroup)) [
    | inr e ↦ rw e (allows_from_lem rules newsgroup result)
    | inl e ↦ rw e (elim (Bool-cases (same v (codes "0"))) [
      | inl z ↦ rw z refl
      | inr z ↦ rw z (elim (Bool-cases (same v (codes "1"))) [
        | inl o ↦ rw o (
            allows_from_lem rules newsgroup true
            ∙ ap (λ b. some (not (has_rule valid "0" rules newsgroup) && b)) (sym (or_true result)))
        | inr o ↦ rw o (allows_from_lem rules newsgroup result)
      ])
    ])
  ]

  has_rule-Perm :
      (value : String) (newsgroup : Bytes) {rules rules' : List (Bytes × Bytes)}
      → Permᴰ rules rules'
      → has_rule valid value rules newsgroup ≡ has_rule valid value rules' newsgroup
  has_rule-Perm value newsgroup Permᴰ.nil = refl
  has_rule-Perm value newsgroup (Permᴰ.cons e p) = rw (e, has_rule-Perm value newsgroup p) refl
  has_rule-Perm value newsgroup (Permᴰ.swap {a} {b} {a'} {b'} {l} e f) =
      rw (e, f)
        (or_swap (valid b'.0 newsgroup && same b'.1 (codes value))
          (valid a'.0 newsgroup && same a'.1 (codes value)) (has_rule valid value l newsgroup))
  has_rule-Perm value newsgroup (Permᴰ.trans p q) =
      has_rule-Perm value newsgroup p ∙ has_rule-Perm value newsgroup q

  pub allows_newsgroup_lem :
      (self : FeedPolicy) (newsgroup : Bytes)
      → allows_newsgroup sure self newsgroup
        ≡ some (
            not (has_rule valid "0" self.rules newsgroup)
            && has_rule valid "1" self.rules newsgroup)
  unfolding allows_newsgroup
  allows_newsgroup_lem self newsgroup = allows_from_lem self.rules newsgroup false

  pub allows_newsgroup-Perm :
      (newsgroup : Bytes) (rules rules' : List (Bytes × Bytes))
      → Permᴰ rules rules'
      → allows_newsgroup sure (record { rules = rules }) newsgroup
        ≡ allows_newsgroup sure (record { rules = rules' }) newsgroup
  allows_newsgroup-Perm newsgroup rules rules' p =
      allows_newsgroup_lem (record { rules = rules }) newsgroup
      ∙ ap₂ (λ a b. some (not a && b)) (has_rule-Perm "0" newsgroup p)
          (has_rule-Perm "1" newsgroup p)
      ∙ sym (allows_newsgroup_lem (record { rules = rules' }) newsgroup)

  -- The rules as a Go map: lists that are the same but for the order in which `range` visits them.
  abbrev pub Rules : Type 0
  Rules = Quot (Permᴰ {A = Bytes × Bytes})

  -- AllowsNewsgroup of a map of rules
  unfoldable pub carries : Bytes → Rules → Bool
  carries newsgroup =
      Quot.lift Bool-set
        (λ rules. verdict (allows_newsgroup sure (record { rules = rules }) newsgroup))
        (λ rules rules' p. ap verdict (allows_newsgroup-Perm newsgroup rules rules' p))

  -- Where every pattern of the rules compiles, AllowsNewsgroup is a function of the map alone: it
  -- answers the same for every order in which `range` visits the rules, and its answer is that a
  -- rule of value 1 matches the newsgroup and none of value 0 does.
  pub allows_newsgroup-carries :
      (self : FeedPolicy) (newsgroup : Bytes)
      → (allows_newsgroup sure self newsgroup ≡ some (carries newsgroup (Quot.mk self.rules)))
        × (allows_newsgroup sure self newsgroup
            ≡ some (
                not (has_rule valid "0" self.rules newsgroup)
                && has_rule valid "1" self.rules newsgroup))
  unfolding carries
  allows_newsgroup-carries self newsgroup =
      let e = allows_newsgroup_lem self newsgroup in (e ∙ ap (λ o. some (verdict o)) (sym e), e)
