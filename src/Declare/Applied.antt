-- ===== src/Declare/Applied.antt =====
-- What the walk over the fleet leaves on each service (drift.go).
use labview.Common.{◌≡◌, refl, List, [], ◌∷◌, ◌++◌, Option-cases, inl, inr}
use labview.Common.Text.{Text}
use labview.Payload.{Service, AppStack}
use labview.Fleet.{key_of}
use labview.Fleet.Depends.{Refusal}
use labview.Declare.{apply_service, apply_services, apply, drift_of, unconfirmed_entries, notes_on}

-- The note of each service once more.
unfoldable pub note_again : Service → Service
note_again svc = record svc { notes = svc.notes ++ notes_on svc }

unfoldable pub note_services : List Service → List Service
note_services [] = []
note_services (s ∷ services) = note_again s ∷ note_services services

unfoldable pub note_stacks : List AppStack → List AppStack
note_stacks [] = []
note_stacks (s ∷ stacks) = record s { services = note_services s.services } ∷ note_stacks stacks

apply_service_twice :
    (refused : List Refusal) (key : Text) (svc : Service)
    → apply_service refused key (apply_service refused key svc)
      ≡ note_again (apply_service refused key svc)
unfolding apply_service drift_of unconfirmed_entries notes_on note_again
apply_service_twice refused key svc = elim (Option-cases svc.declared) [
  | inl e ↦ rw e refl
  | inr (d, e) ↦ rw e refl
]

apply_services_twice :
    (refused : List Refusal) (stack : Text) (services : List Service)
    → apply_services refused stack (apply_services refused stack services)
      ≡ note_services (apply_services refused stack services)
unfolding apply_services apply_service note_services note_again
apply_services_twice refused stack [] = refl
apply_services_twice refused stack (s ∷ services) =
    rw
      (
        apply_services_twice refused stack services,
        apply_service_twice refused (key_of stack s.name) s,
      )
      refl

-- A second walk over what the first one left, with the same refusals, rebuilds every conclusion as it
-- is, and adds to the notes of each service the sentence of its comparison, where that is noted, once
-- more.
pub apply_twice :
    (refused : List Refusal) (stacks : List AppStack)
    → apply refused (apply refused stacks) ≡ note_stacks (apply refused stacks)
unfolding apply note_stacks
apply_twice refused [] = refl
apply_twice refused (s ∷ stacks) =
    rw (apply_twice refused stacks, apply_services_twice refused s.id s.services) refl
