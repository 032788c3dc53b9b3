-- ===== src/Common/Assoc.antt =====
-- A Go map with string keys, as an association list with at most one entry for a key.
use Prim.Native.Nat.{suc}
use Prim.Native.String.{String}
use mathlib.Core.Path.{◌≡◌, refl, ap, subst}
use mathlib.Core.Logic.{inl, inr}
use mathlib.Core.Bool.{true, false}
use mathlib.Core.List.{List, [], ◌∷◌, map}
use mathlib.Core.Option.{Option, none, some}
use native.Mathlib.Omega.{arith}
use go_chat_msa.Common.Tests.{str_eq, str_eq_iff, if◌then◌else◌, Bool-cases}
use go_chat_msa.Common.Lists.{length}

module _ {ℓ} {V : Type ℓ} where
  -- m[k], with `none` for a missing key.
  unfoldable pub find : String → List (String × V) → Option V
  find k [] = none
  find k ((j, v) ∷ m) = if str_eq j k then some v else find k m

  -- delete(m, k).
  unfoldable pub remove : String → List (String × V) → List (String × V)
  remove k [] = []
  remove k ((j, v) ∷ m) = let rest = remove k m in if str_eq j k then rest else (j, v) ∷ rest

  -- m[k] = v.
  unfoldable pub put : String → V → List (String × V) → List (String × V)
  put k v [] = (k, v) ∷ []
  put k v ((j, w) ∷ m) = if str_eq j k then (j, v) ∷ m else (j, w) ∷ put k v m

  pub find-empty : (k : String) → find k [] ≡ none
  unfolding find
  find-empty k = refl

  pub find-put :
      (k j : String) (v : V) (m : List (String × V))
      → find j (put k v m) ≡ (if str_eq k j then some v else find j m)
  unfolding find put
  find-put k j v [] = refl
  find-put k j v ((i, w) ∷ m) =
      ground (arith, str_eq_iff k j, str_eq_iff i k, str_eq_iff i j, find-put k j v m)

  pub find-put_hit :
      (k j : String) (v : V) (m : List (String × V))
      → str_eq k j ≡ true
      → find j (put k v m) ≡ some v
  find-put_hit k j v m e = rw (find-put k j v m) (rw e refl)

  pub find-put_miss :
      (k j : String) (v : V) (m : List (String × V))
      → str_eq k j ≡ false
      → find j (put k v m) ≡ find j m
  find-put_miss k j v m e = rw (find-put k j v m) (rw e refl)

  pub find-remove :
      (k j : String) (m : List (String × V))
      → find j (remove k m) ≡ (if str_eq k j then none else find j m)
  unfolding find remove
  find-remove k j [] = ground arith
  find-remove k j ((i, w) ∷ m) =
      ground (arith, str_eq_iff k j, str_eq_iff i k, str_eq_iff i j, find-remove k j m)

  pub find-remove_miss :
      (k j : String) (m : List (String × V)) → str_eq k j ≡ false → find j (remove k m) ≡ find j m
  find-remove_miss k j m e = rw (find-remove k j m) (rw e refl)

  -- Every key stands once.
  abbrev pub Distinct : List (String × V) → Type ℓ
  Distinct [] = Unit
  Distinct ((k, v) ∷ m) = (find k m ≡ none) × Distinct m

  remove_missing : (k : String) (m : List (String × V)) → find k m ≡ none → remove k m ≡ m
  unfolding find remove
  remove_missing k [] h = refl
  remove_missing k ((j, v) ∷ m) h = ground (arith, remove_missing k m)

  pub remove-Distinct : (k : String) (m : List (String × V)) → Distinct m → Distinct (remove k m)
  unfolding remove
  remove-Distinct k [] d = d
  remove-Distinct k ((j, v) ∷ m) d = ground (arith, remove-Distinct k m d.1, find-remove k j m)

  pub put-Distinct :
      (k : String) (v : V) (m : List (String × V)) → Distinct m → Distinct (put k v m)
  unfolding find put
  put-Distinct k v [] d = (refl, tt)
  put-Distinct k v ((j, w) ∷ m) d =
      ground (arith, str_eq_iff j k, str_eq_iff k j, put-Distinct k v m d.1, find-put k j v m)

  -- Deleting a present key drops one entry, and writing a missing key adds one.
  pub length-remove :
      (k : String) (m : List (String × V)) {v : V}
      → Distinct m
      → find k m ≡ some v
      → suc (length (remove k m)) ≡ length m
  unfolding find remove
  length-remove k [] d h = ground arith
  length-remove k ((j, w) ∷ m) d h = elim (Bool-cases (str_eq j k)) [
    | inl e ↦
        let same : j ≡ k = (str_eq_iff j k).0 e in
        rw e (ap (λ r. suc (length r)) (remove_missing k m (subst (λ i. find i m ≡ none) same d.0)))
    | inr e ↦ rw e (ap suc (length-remove k m d.1 (rw (e, find) at h)))
  ]

  pub length-put :
      (k : String) (v : V) (m : List (String × V))
      → find k m ≡ none
      → length (put k v m) ≡ suc (length m)
  unfolding find put
  length-put k v [] h = refl
  length-put k v ((j, w) ∷ m) h = ground (arith, length-put k v m)

  -- Writing a present key keeps the number of entries.
  pub length-put_found :
      (k : String) (v : V) (m : List (String × V)) {w : V}
      → find k m ≡ some w
      → length (put k v m) ≡ length m
  unfolding find put
  length-put_found k v [] h = ground arith
  length-put_found k v ((j, x) ∷ m) h = elim (Bool-cases (str_eq j k)) [
    | inl e ↦ rw e
    | inr e ↦ rw e (ap suc (length-put_found k v m (rw (e, find) at h)))
  ]

  -- A function applied to every value.
  abbrev pub map_values : (V → V) → List (String × V) → List (String × V)
  map_values f m = map (λ (k, v). (k, f v)) m

  pub find-map_values-none :
      (f : V → V) (k : String) (m : List (String × V))
      → find k m ≡ none
      → find k (map_values f m) ≡ none
  unfolding find
  find-map_values-none f k [] h = refl
  find-map_values-none f k ((j, v) ∷ m) h = ground (arith, find-map_values-none f k m)

  pub map_values-Distinct :
      (f : V → V) (m : List (String × V)) → Distinct m → Distinct (map_values f m)
  map_values-Distinct f [] d = tt
  map_values-Distinct f ((k, v) ∷ m) d =
      (find-map_values-none f k m d.0, map_values-Distinct f m d.1)

  pub length-map_values : (f : V → V) (m : List (String × V)) → length (map_values f m) ≡ length m
  length-map_values f [] = refl
  length-map_values f ((k, v) ∷ m) = ap suc (length-map_values f m)

  pub find-map_values :
      (f : V → V) (k : String) (m : List (String × V)) {v : V}
      → find k m ≡ some v
      → find k (map_values f m) ≡ some (f v)
  unfolding find
  find-map_values f k [] h = ground arith
  find-map_values f k ((j, w) ∷ m) h = elim (Bool-cases (str_eq j k)) [
    | inl e ↦ rw (e, find) (ap (λ o. map_some o) (rw (e, find) at h))
    | inr e ↦ rw (e, find) (find-map_values f k m (rw (e, find) at h))
  ]
    where
      map_some : Option V → Option V
      map_some none = none
      map_some (some v) = some (f v)
