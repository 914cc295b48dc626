-- ===== src/Base/Dict.antt =====
-- Python's `dict` with string keys, in insertion order: a write to a present key keeps its place.
use mathlib.Core.Path.{◌≡◌, refl}
use mathlib.Core.Bool.{Bool, true, false}
use mathlib.Core.Option.{Option, none, some}
use mathlib.Core.List.{List, [], ◌∷◌, ◌++◌, map}
use native.Mathlib.Omega.{arith}
use Prim.Native.String.{String}
use text.Mathlib.TextEquality.{eq_iff}
use mathlib.Core.Logic.{inl, inr}
use asr_serve.Base.Test.{str_eq, if◌then◌else◌, Bool-cases}

abbrev pub Dict {ℓ} : Type ℓ → Type ℓ
Dict V = List (String × V)

pub str_eq_comm : (s t : String) → str_eq s t ≡ str_eq t s
str_eq_comm s t = grind (arith, eq_iff s t, eq_iff t s)

module _ {ℓ} {V : Type ℓ} where
  -- `d.get(k)`
  abbrev pub lookup : String → Dict V → Option V
  lookup k [] = none
  lookup k ((j, v) ∷ d) = if str_eq j k then some v else lookup k d

  -- `k in d`
  abbrev pub contains : String → Dict V → Bool
  contains k d = elim (lookup k d) [ none ↦ false | some _ ↦ true ]

  -- `d.get(k, v)`
  abbrev pub get_default : String → V → Dict V → V
  get_default k v d = elim (lookup k d) [ none ↦ v | some w ↦ w ]

  -- `d[k] = v`
  abbrev pub insert : String → V → Dict V → Dict V
  insert k v [] = (k, v) ∷ []
  insert k v ((j, w) ∷ d) = if str_eq j k then (j, v) ∷ d else (j, w) ∷ insert k v d

  -- `d.pop(k, None)`
  abbrev pub remove : String → Dict V → Dict V
  remove k [] = []
  remove k ((j, w) ∷ d) = let rest = remove k d in if str_eq j k then rest else (j, w) ∷ rest

  -- `if k in d: d[k].field = …`
  abbrev pub modify : String → (V → V) → Dict V → Dict V
  modify k f [] = []
  modify k f ((j, w) ∷ d) = (j, if str_eq j k then f w else w) ∷ modify k f d

  -- `d.values()`
  abbrev pub values : Dict V → List V
  values = map (λ e. e.1)

  pub lookup-insert :
      (k j : String) (v : V) (d : Dict V)
      → lookup j (insert k v d) ≡ (if str_eq k j then some v else lookup j d)
  lookup-insert k j v [] = refl
  lookup-insert k j v ((i, w) ∷ d) =
      ground (arith, eq_iff k j, eq_iff i k, eq_iff i j, lookup-insert k j v d)

  pub lookup-remove :
      (k j : String) (d : Dict V)
      → lookup j (remove k d) ≡ (if str_eq k j then none else lookup j d)
  lookup-remove k j [] = ground arith
  lookup-remove k j ((i, w) ∷ d) =
      ground (arith, eq_iff k j, eq_iff i k, eq_iff i j, lookup-remove k j d)

  pub lookup-modify :
      (k j : String) (f : V → V) (d : Dict V)
      → lookup j (modify k f d) ≡ (
          if str_eq k j
          then elim (lookup j d) [ none ↦ none | some v ↦ some (f v) ]
          else lookup j d)
  lookup-modify k j f [] = ground arith
  lookup-modify k j f ((i, w) ∷ d) =
      ground (arith, eq_iff k j, eq_iff i k, eq_iff i j, lookup-modify k j f d)

  -- `{**d, **e}`
  abbrev pub merge : Dict V → Dict V → Dict V
  merge d [] = d
  merge d ((k, v) ∷ e) = merge (insert k v d) e

  -- No key stands twice, as in every `dict`.
  abbrev pub IsDict : Dict V → Type ℓ
  IsDict [] = Unit
  IsDict ((k, v) ∷ d) = (lookup k d ≡ none) × IsDict d

  pub insert-IsDict : (k : String) (v : V) (d : Dict V) → IsDict d → IsDict (insert k v d)
  insert-IsDict k v [] h = (refl, tt)
  insert-IsDict k v ((j, w) ∷ d) h = elim (Bool-cases (str_eq j k)) [
    | inl e ↦ rw e h
    | inr e ↦ rw e (
      rw (lookup-insert k j v d) (ground (arith, eq_iff j k, eq_iff k j, h.0)),
      insert-IsDict k v d h.1,
    )
  ]

  pub remove-IsDict : (k : String) (d : Dict V) → IsDict d → IsDict (remove k d)
  remove-IsDict k [] h = tt
  remove-IsDict k ((j, w) ∷ d) h = elim (Bool-cases (str_eq j k)) [
    | inl e ↦ rw e (remove-IsDict k d h.1)
    | inr e ↦ rw e (
      rw (lookup-remove k j d) (ground (arith, eq_iff j k, eq_iff k j, h.0)),
      remove-IsDict k d h.1,
    )
  ]

  pub modify-IsDict : (k : String) (f : V → V) (d : Dict V) → IsDict d → IsDict (modify k f d)
  modify-IsDict k f [] h = tt
  modify-IsDict k f ((j, w) ∷ d) h =
      (rw (lookup-modify k j f d) (ground (arith, h.0)), modify-IsDict k f d h.1)

  -- A key that is not there is not removed.
  pub remove_absent : (k : String) (d : Dict V) → lookup k d ≡ none → remove k d ≡ d
  remove_absent k [] h = refl
  remove_absent k ((j, w) ∷ d) h = ground (arith, remove_absent k d)

  -- In a merge the second dictionary wins.
  pub lookup-merge :
      (j : String) (d e : Dict V)
      → IsDict e
      → lookup j (merge d e) ≡ elim (lookup j e) [ none ↦ lookup j d | some v ↦ some v ]
  lookup-merge j d [] h = refl
  lookup-merge j d ((k, v) ∷ e) h =
      ground (arith, lookup-merge j (insert k v d) e h.1, lookup-insert k j v d, eq_iff k j, h.0)

  pub lookup-append :
      (k : String) (d e : Dict V)
      → lookup k (d ++ e) ≡ elim (lookup k d) [ none ↦ lookup k e | some v ↦ some v ]
  lookup-append k [] e = refl
  lookup-append k ((j, w) ∷ d) e = ground (arith, lookup-append k d e)

  pub remove-append : (k : String) (d e : Dict V) → remove k (d ++ e) ≡ remove k d ++ remove k e
  remove-append k [] e = refl
  remove-append k ((j, w) ∷ d) e = ground (arith, remove-append k d e)

  -- A key in the middle of a dictionary stands nowhere else.
  pub IsDict-append-cons :
      (d : Dict V) (k : String) (v : V) (e : Dict V)
      → IsDict (d ++ (k, v) ∷ e)
      → (lookup k d ≡ none) × (lookup k e ≡ none) × IsDict (d ++ e)
  IsDict-append-cons [] k v e h = (refl, h.0, h.1)
  IsDict-append-cons ((j, w) ∷ d) k v e h =
      let (before, after, rest) = IsDict-append-cons d k v e h.1 in
      let split = lookup-append j d ((k, v) ∷ e) in
      let split' = lookup-append j d e in
      (
        ground (arith, split, h.0, eq_iff j k, eq_iff k j),
        after,
        (ground (arith, split, split', h.0, eq_iff j k, eq_iff k j), rest),
      )

  -- A new key that is removed again leaves the dictionary as it was.
  pub remove-insert_absent :
      (k : String) (v : V) (d : Dict V) → lookup k d ≡ none → remove k (insert k v d) ≡ d
  remove-insert_absent k v [] h = ground (arith, eq_iff k k)
  remove-insert_absent k v ((j, w) ∷ d) h = ground (arith, remove-insert_absent k v d)
