-- ===== src/Fleet.antt =====
-- internal/fleet: what can be concluded only with every stack in hand.
--
-- `key_of` is `Key`, and `split_key` is `SplitKey`.

pub mod Ingress
pub mod Networks
pub mod Depends
pub mod Address
pub mod Index
pub mod Origins
pub mod Stats
pub mod Graph
use labview.Common.{Bool, List, [], ◌∷◌, ◌++◌, Option, none, some}
use labview.Common.Text.{Text, cut_byte}
use labview.Payload.{Service, AppStack}

unfoldable pub key_of : Text → Text → Text
key_of stack service = stack ++ b'/' ∷ service

unfoldable pub split_key : Text → Text × Text
split_key key = elim (cut_byte b'/' key) [ Option.none ↦ (key, []) | some halves ↦ halves ]

-- The calls of `each`, in order: a stack's identifier, a service, and its key.
pub record Visit : Type 0 where
  pub stack : Text
  pub service : Service
  pub key : Text

abbrev pub visits : Text → List Service → List Visit
visits stack [] = []
visits stack (s ∷ services) =
    record { stack = stack; service = s; key = key_of stack s.name } ∷ visits stack services

unfoldable pub each : List AppStack → List Visit
each [] = []
each (s ∷ stacks) = visits s.id s.services ++ each stacks
