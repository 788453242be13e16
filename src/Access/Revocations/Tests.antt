-- ===== src/Access/Revocations/Tests.antt =====
-- A run of the revocation set.
use labview.Common.{ℕ, ◌≡◌, refl, [], ◌∷◌}
use labview.Common.Text.{codes, text_eq}
use labview.Common.Map.{Map, insert, remove}
use labview.Access.Revocations.{sort_entries, drop_entries, evict, prune, add}

abbrev two_held : Map ℕ
two_held = (codes "late", 90) ∷ (codes "soon", 40) ∷ []

-- The third of two goes: the one that expires first.
drops_soon : add 2 (codes "new") 70 10 two_held ≡ (codes "late", 90) ∷ (codes "new", 70) ∷ []
unfolding add prune evict drop_entries sort_entries insert text_eq remove
drops_soon = refl
