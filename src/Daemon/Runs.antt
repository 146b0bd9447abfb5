-- ===== src/Daemon/Runs.antt =====
-- Predicates on what a call on a connection of src/srnd/nntp.go returns.
use srndv.Base.{◌≡◌, Bool, true, false, Option, refl, if◌then◌else◌}
use srndv.Inbound.{Error}
use srndv.Daemon.{NntpConnection, Run, panics, blocks, returns}

-- The predicate holds of the connection that a call returns, if it returns.
pub data Returning {W : Type 0} (P : NntpConnection W → Type 0) : Run W → Type 0 where
  panicking : Returning P panics
  blocking : Returning P blocks
  returning : {c : NntpConnection W} {e : Option Error} → P c → Returning P (returns c e)

pub returned :
    {W : Type 0} {P : NntpConnection W → Type 0} {c : NntpConnection W} {e : Option Error}
    → Returning P (returns c e)
    → P c
returned (returning h) = h

pub Returning-if :
    {W : Type 0} (P : NntpConnection W → Type 0) (b : Bool) (x y : Run W)
    → (b ≡ true → Returning P x)
    → (b ≡ false → Returning P y)
    → Returning P (if b then x else y)
Returning-if P true x y f g = f refl
Returning-if P false x y f g = g refl
