-- ===== src/Nntp/Policy.antt =====
-- lib/nntp/acceptor.go: what an acceptor says of an article, an int of which four values are named.
use srndv.Base.{ℕ, Bool, ◌||◌, ◌==◌}

abbrev pub policy_accept : ℕ
policy_accept = 0

abbrev pub policy_reject : ℕ
policy_reject = 1

abbrev pub policy_defer : ℕ
policy_defer = 2

abbrev pub policy_ban : ℕ
policy_ban = 3

unfoldable pub is_accept : ℕ → Bool
is_accept s = s == policy_accept

unfoldable pub is_defer : ℕ → Bool
is_defer s = s == policy_defer

unfoldable pub is_ban : ℕ → Bool
is_ban s = s == policy_ban

unfoldable pub is_reject : ℕ → Bool
is_reject s = s == policy_ban || s == policy_reject
