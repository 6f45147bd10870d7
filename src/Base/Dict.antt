-- ===== src/Base/Dict.antt =====
-- A Python dict keyed by `str`, in insertion order: an association list without repeated keys.
use mathlib.Core.Path.{◌≡◌, refl}
use mathlib.Core.Option.{Option, none, some}
use mathlib.Core.List.{List, [], ◌∷◌}
use native.Mathlib.Omega.{arith}
use package.asyncio_otlp_client.Base.Tests.{if◌then◌else◌}
use package.asyncio_otlp_client.Base.Text.{Str, str_eq, str_eq_iff}

abbrev pub Dict {ℓ} : Type ℓ → Type ℓ
Dict V = List (Str × V)

module _ {ℓ} {V : Type ℓ} where
  -- `d.get(k)`
  unfoldable pub lookup : Str → Dict V → Option V
  lookup k [] = none
  lookup k ((j, v) ∷ d) = if str_eq j k then some v else lookup k d

  -- `d[k] = v`: an old key keeps its place
  unfoldable pub insert : Str → V → Dict V → Dict V
  insert k v [] = (k, v) ∷ []
  insert k v ((j, w) ∷ d) = if str_eq j k then (j, v) ∷ d else (j, w) ∷ insert k v d

  -- `{**a, **b}`
  unfoldable pub merge : Dict V → Dict V → Dict V
  merge a [] = a
  merge a ((k, v) ∷ b) = merge (insert k v a) b

  pub lookup-insert :
      (k j : Str) (v : V) (d : Dict V)
      → lookup j (insert k v d) ≡ (if str_eq k j then some v else lookup j d)
  unfolding lookup insert
  lookup-insert k j v [] = refl
  lookup-insert k j v ((i, w) ∷ d) =
      ground (arith, str_eq_iff k j, str_eq_iff i k, str_eq_iff i j, lookup-insert k j v d)

  -- The last value that a list of pairs gives a key.
  unfoldable pub last_value : Str → Dict V → Option V
  last_value k [] = none
  last_value k ((j, v) ∷ d) = elim (last_value k d) [
    | some w ↦ some w
    | none ↦ if str_eq j k then some v else none
  ]

  -- In a merge the right side wins, by its last value for the key; other keys keep the left value.
  pub lookup-merge :
      (k : Str) (a b : Dict V)
      → lookup k (merge a b) ≡ elim (last_value k b) [ some v ↦ some v | none ↦ lookup k a ]
  unfolding merge last_value
  lookup-merge k a [] = refl
  lookup-merge k a ((j, v) ∷ b) =
      ground (arith, lookup-merge k (insert j v a) b, lookup-insert j k v a)
