-- ===== src/Common/Dict.antt =====
-- Objects with text keys (`Record<string, V>`, `Map<string, V>`), sets of texts, and `sort` on texts.
use Prim.Native.String.{String}
use Prim.Native.Char.{code}
use text.Mathlib.Text.{◌==◌ as str_eq}
use text.Mathlib.TextEquality.{eq_iff}
use buy_not_buy_com.Common.{
  ◌≡◌, refl, Bool, true, false, ◌||◌, Option, some, none, List, [], ◌∷◌, ◌++◌, arith, ltb,
  if◌then◌else◌,
}

abbrev pub Dict {ℓ} : Type ℓ → Type ℓ
Dict V = List (String × V)

abbrev pub mem : String → List String → Bool
mem k [] = false
mem k (j ∷ js) = str_eq j k || mem k js

module _ {ℓ} {V : Type ℓ} where
  unfoldable pub lookup : String → Dict V → Option V
  lookup k [] = none
  lookup k ((key, value) ∷ rest) = if str_eq key k then some value else lookup k rest

  unfoldable pub insert : String → V → Dict V → Dict V
  insert k new_value [] = (k, new_value) ∷ []
  insert k new_value ((key, value) ∷ rest) =
      if str_eq key k then (k, new_value) ∷ rest else (key, value) ∷ insert k new_value rest

  unfoldable pub keys : Dict V → List String
  keys [] = []
  keys ((k, v) ∷ m) = k ∷ keys m

  pub lookup-insert :
      (new asked : String) (x : V) (d : Dict V)
      → lookup asked (insert new x d) ≡ (if str_eq new asked then some x else lookup asked d)
  unfolding insert lookup
  lookup-insert new asked x [] = refl
  lookup-insert new asked x ((key, value) ∷ rest) =
      ground
        (eq_iff key new, eq_iff key asked, eq_iff new asked, lookup-insert new asked x rest, arith)

  abbrev is_some : Option V → Bool
  is_some (some v) = true
  is_some none = false

  pub mem-keys : (k : String) (m : Dict V) → mem k (keys m) ≡ is_some (lookup k m)
  unfolding lookup keys
  mem-keys k [] = refl
  mem-keys k ((j, v) ∷ m) = ground (arith, mem-keys k m)

  pub lookup-not_mem : (k : String) (m : Dict V) → mem k (keys m) ≡ false → lookup k m ≡ none
  lookup-not_mem k m h = ground (arith, mem-keys k m)

  -- `for (const k of ks) state[k] = f(k)`.
  unfoldable pub fill : (String → V) → List String → Dict V → Dict V
  fill f [] m = m
  fill f (k ∷ ks) m = fill f ks (insert k (f k) m)

  pub lookup-fill :
      (f : String → V) (ks : List String) (m : Dict V) (j : String)
      → lookup j (fill f ks m) ≡ (if mem j ks then some (f j) else lookup j m)
  unfolding fill
  lookup-fill f [] m j = refl
  lookup-fill f (k ∷ ks) m j =
      ground (arith, eq_iff k j, lookup-fill f ks (insert k (f k) m) j, lookup-insert k j (f k) m)

-- `new Set([…])`: each text once, where it first stands. The first list holds the texts seen.
unfoldable pub unique_from : List String → List String → List String
unique_from seen [] = []
unique_from seen (k ∷ ks) = elim (mem k seen) [
  | true ↦ unique_from seen ks
  | false ↦ k ∷ unique_from (k ∷ seen) ks
]

abbrev pub unique : List String → List String
unique ks = unique_from [] ks

pub mem-unique_from :
    (j : String) (seen ks : List String)
    → (mem j seen || mem j (unique_from seen ks)) ≡ (mem j seen || mem j ks)
unfolding unique_from
mem-unique_from j seen [] = refl
mem-unique_from j seen (k ∷ ks) =
    ground (arith, mem-unique_from j seen ks, mem-unique_from j (k ∷ seen) ks, eq_iff k j)

pub mem-unique : (j : String) (ks : List String) → mem j (unique ks) ≡ mem j ks
mem-unique j ks = mem-unique_from j [] ks

pub mem-append : (j : String) (ks js : List String) → mem j (ks ++ js) ≡ (mem j ks || mem j js)
mem-append j [] js = refl
mem-append j (k ∷ ks) js = ground (arith, mem-append j ks js)

-- The order of `sort()`, by code units (equal to code points for the names of markets).
unfoldable pub precedes : String → String → Bool
precedes String.[] t = true
precedes (String.◌∷◌ c s) String.[] = false
precedes (String.◌∷◌ c s) (String.◌∷◌ d t) =
    if ltb (code c) (code d) then true else if ltb (code d) (code c) then false else precedes s t

unfoldable pub insert_sorted : String → List String → List String
insert_sorted k [] = k ∷ []
insert_sorted k (j ∷ js) = if precedes k j then k ∷ j ∷ js else j ∷ insert_sorted k js

unfoldable pub sort : List String → List String
sort [] = []
sort (k ∷ ks) = insert_sorted k (sort ks)

mem-insert_sorted :
    (j k : String) (ks : List String) → mem j (insert_sorted k ks) ≡ (str_eq k j || mem j ks)
unfolding insert_sorted
mem-insert_sorted j k [] = refl
mem-insert_sorted j k (i ∷ ks) = ground (arith, mem-insert_sorted j k ks)

pub mem-sort : (j : String) (ks : List String) → mem j (sort ks) ≡ mem j ks
unfolding sort
mem-sort j [] = refl
mem-sort j (k ∷ ks) = ground (arith, mem-sort j ks, mem-insert_sorted j k (sort ks))
