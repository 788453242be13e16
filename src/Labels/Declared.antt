-- ===== src/Labels/Declared.antt =====
-- Which routes are recorded (dockflare.go, `Cloudflare`).
use labview.Common.{
  ◌≡◌, refl, true, false, List, [], ◌∷◌, Option, none, some, All, All-append, Bool-cases, inl, inr,
  ◌⊎◌,
}
use labview.Common.Text.{Text, codes, is_empty, sort_texts}
use labview.Common.Map.{Map, lookup, keys}
use labview.Payload.{CloudflareRoute}
use labview.Labels.{
  CfGroup, falsy, same_index, switched_off, enable_of, route_of, read_group, read_groups,
  group_labels, sort_groups, governing_of, cloudflare,
}

abbrev pub HasHostname : CloudflareRoute → Type 0
HasHostname r = is_empty r.hostname ≡ false

read_group-All :
    (governing : Option Text) (g : CfGroup) → All HasHostname (read_group governing g).0
unfolding read_group
read_group-All governing g = elim (Bool-cases (switched_off (enable_of governing g))) [
  | inl off ↦ rw (read_group, off) tt
  | inr on ↦ elim (Bool-cases (is_empty (route_of g).hostname)) [
    | inl e ↦ rw (read_group, on, e) tt
    | inr e ↦ rw (read_group, on, e) (e, tt)
  ]
]

read_groups-All :
    (governing : Option Text) (groups : List CfGroup)
    → All HasHostname (read_groups governing groups).0
unfolding read_groups
read_groups-All governing [] = tt
read_groups-All governing (g ∷ groups) =
    All-append HasHostname (read_group governing g).0 (read_groups governing groups).0
      (read_group-All governing g) (read_groups-All governing groups)

-- Every route that is recorded has a host name, whatever the labels are.
pub cloudflare-All : (lbls : Map Text) (prefix : Text) → All HasHostname (cloudflare lbls prefix).0
unfolding cloudflare
cloudflare-All lbls prefix =
    let groups = sort_groups (group_labels lbls prefix (sort_texts (keys lbls)) []) in
    read_groups-All (governing_of groups) groups

-- The labels under a prefix, as the groups that are read.
abbrev pub groups_of : Map Text → Text → List CfGroup
groups_of lbls prefix = sort_groups (group_labels lbls prefix (sort_texts (keys lbls)) [])

-- A group's own flag is false, or it is an indexed one with no flag of its own.
unfoldable pub IsOff : CfGroup → Type 0
IsOff g =
    ((v : Text) × (lookup (codes "enable") g.fields ≡ some v) × (falsy v ≡ true))
    ⊎ ((lookup (codes "enable") g.fields ≡ none) × (same_index g.index none ≡ false))

read_group_off :
    (v : Text) (g : CfGroup) → falsy v ≡ true → IsOff g → read_group (some v) g ≡ ([], [])
unfolding read_group enable_of IsOff
read_group_off v g f (inl (w, own, h)) = rw (read_group, enable_of, own, h) refl
read_group_off v g f (inr (own, i)) = rw (read_group, enable_of, own, i, f) refl

read_groups_off :
    (v : Text) (groups : List CfGroup)
    → falsy v ≡ true
    → All IsOff groups
    → read_groups (some v) groups ≡ ([], [])
unfolding read_groups
read_groups_off v [] f h = refl
read_groups_off v (g ∷ groups) f h =
    rw (read_groups, read_group_off v g f h.0, read_groups_off v groups f h.1) refl

-- Where the flag of the flat form is false and no indexed group has one of its own that is not, no route
-- is recorded, and no note either.
pub cloudflare_off :
    (lbls : Map Text) (prefix v : Text)
    → governing_of (groups_of lbls prefix) ≡ some v
    → falsy v ≡ true
    → All IsOff (groups_of lbls prefix)
    → cloudflare lbls prefix ≡ ([], [])
unfolding cloudflare
cloudflare_off lbls prefix v h f off =
    rw (cloudflare, h) (read_groups_off v (groups_of lbls prefix) f off)
