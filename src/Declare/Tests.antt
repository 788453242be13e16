-- ===== src/Declare/Tests.antt =====
-- The theorems on declarations at a concrete fleet.
use labview.Common.{no_items, ◌+◌, ◌≡◌, ◌↔◌, true, false, List, [], ◌∷◌, some}
use labview.Common.Text.{codes}
use labview.Payload.{
  forward_auth, plain_service, plain_declaration, Service, AppStack, public, no_auth, app_oidc,
  supplies, detected, match_enforced, probe_gate, declared_auth_mechanisms,
}
use labview.Fleet.{each}
use labview.Fleet.Ingress.{external}
use labview.Fleet.Networks.{Networks, new_networks}
use labview.Fleet.Depends.{Deps, dependencies}
use labview.Fleet.Stats.{stats}
use labview.Fleet.Stats.Turns.{total, one}
use labview.Declare.{apply, would_be_exposed, compare_service}
use labview.Declare.Outcomes.{compare_service-supplies}
use labview.Declare.Reported.{told, compare_service-agreement}
use labview.Declare.Applied.{note_stacks, apply_twice}
use labview.Declare.Exposed.{stats-apply}

abbrev web : Service
web = record (plain_service (codes "web") []) {
  ingress = public ∷ [];
  auth = record { method = no_auth; exposed_without_auth = false };
  declared = some (record (plain_declaration (codes "labview.yml")) { auth = app_oidc ∷ [] });
}

abbrev stacks : List AppStack
stacks = record { id = codes "media"; services = web ∷ []; declared_networks = [] } ∷ []

abbrev nets : Networks
nets = new_networks stacks

abbrev deps : Deps
deps = dependencies stacks nets

abbrev gated : Service
gated = record web { auth = record { method = forward_auth; exposed_without_auth = false } }

compare_service-agreement_example :
    (compare_service gated false).agreement ≡ told forward_auth (app_oidc ∷ [])
compare_service-agreement_example = compare_service-agreement gated false

compare_service-supplies_example :
    ((compare_service web (would_be_exposed web)).agreement ≡ supplies) ↔ (
      (no_items (declared_auth_mechanisms web.declared) ≡ false)
      × (external web.ingress ≡ true)
      × (detected web.auth.method ≡ false)
      × (match_enforced web.authentik ≡ false)
      × (probe_gate web.probe ≡ false))
compare_service-supplies_example = compare_service-supplies web

apply_twice_example : apply [] (apply [] stacks) ≡ note_stacks (apply [] stacks)
apply_twice_example = apply_twice [] stacks

stats-apply_example :
    (stats (apply [] stacks) nets deps).exposed_without_auth
      + (stats (apply [] stacks) nets deps).declared_auth_protected
    ≡ total (λ svc. one (would_be_exposed svc)) (each stacks)
stats-apply_example = stats-apply [] stacks nets deps
