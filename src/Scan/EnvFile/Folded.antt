-- ===== src/Scan/EnvFile/Folded.antt =====
-- Which declaration of a variable counts (envfile.go, `envMap`).
use labview.Common.{
  ◌≡◌, refl, ◌∙◌, List, [], ◌∷◌, Option, none, some, if◌then◌else◌, Option-cases, inl, inr,
  Bool-cases,
}
use labview.Common.Text.{Text, text_eq}
use labview.Common.Map.{Map, lookup, insert, remove, lookup-insert, lookup-remove}
use labview.Scan.EnvFile.{EnvEntry, fold_entries, env_map}

-- What the last declaration of a name gives it, if there is one.
unfoldable pub last_declared : Text → List EnvEntry → Option (Option Text)
last_declared k [] = none
last_declared k (e ∷ es) = elim (last_declared k es) [
  | some v ↦ some v
  | none ↦ if text_eq e.key k then some e.value else none
]

abbrev pub or_else : Option Text → Option (Option Text) → Option Text
or_else v none = v
or_else v (some w) = w

lookup-remove_or_insert :
    (j k : Text) (o : Option Text) (m : Map Text)
    → lookup k (elim o [ none ↦ remove j m | some v ↦ insert j v m ])
      ≡ (if text_eq j k then o else lookup k m)
lookup-remove_or_insert j k none m = lookup-remove j k m
lookup-remove_or_insert j k (some v) m = lookup-insert j k v m

lookup-fold_entries :
    (k : Text) (es : List EnvEntry) (m : Map Text)
    → lookup k (fold_entries m es) ≡ or_else (lookup k m) (last_declared k es)
unfolding fold_entries last_declared
lookup-fold_entries k [] m = refl
lookup-fold_entries k (e ∷ es) m =
    lookup-fold_entries k es _
    ∙ rw (lookup-remove_or_insert e.key k e.value m) (elim (Option-cases (last_declared k es)) [
      | inl n ↦ elim (Bool-cases (text_eq e.key k)) [
        | inl t ↦ rw (n, t) refl
        | inr t ↦ rw (n, t) refl
      ]
      | inr (v, n) ↦ rw n refl
    ])

-- A variable has the value that its last declaration gives it: none where that gives none, and none
-- where there is no declaration.
pub lookup-env_map :
    (k : Text) (es : List EnvEntry) → lookup k (env_map es) ≡ or_else none (last_declared k es)
unfolding env_map lookup
lookup-env_map k es = lookup-fold_entries k es []
