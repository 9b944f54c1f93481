-- ===== src/Stream/Keeps.antt =====
-- Invariants of what stands around a stream, over the stream's actions.
use nonecorn.Prelude.{Option, some, none}
use nonecorn.Exec.Keeps.{Keeps, keeps_rules}
use nonecorn.Stream.{World, update, attribute}

-- a predicate of the surroundings
pub record Around {S W : Type 0} (P : W → Type 0) (w : World S W) : Type 0 where
  pub rest : P w.rest

module _ {S W : Type 0} {P : W → Type 0} where
  pub Keeps-update : (f : S → S) → Keeps (Around P) (update f)
  Keeps-update f = record { at = λ w h. record { rest = h.rest } }

pub Keeps-attribute : {S A : Type 0} {P : S → Type 0} (o : Option A) → Keeps P (attribute o)
Keeps-attribute none = search keeps_rules
Keeps-attribute (some a) = search keeps_rules

pub ruleset stream_rules = (keeps_rules, Keeps-update, Keeps-attribute)
