-- ===== src/Common/Sets.antt =====
-- Sets of texts as lists, Go's order of strings, slices.Sort and strings.TrimPrefix.
use Prim.Native.Nat.{suc, ◌≤◌}
use Prim.Native.Char.{code}
use Prim.Native.String.{String, ◌++◌ as text_append}
use mathlib.Core.Path.{◌≡◌, refl, ap, ◌∙◌}
use mathlib.Core.Logic.{inl, inr}
use mathlib.Core.Bool.{Bool, true, false, not, ◌&&◌, ◌||◌}
use mathlib.Core.Option.{Option, none, some}
use mathlib.Core.List.{List, [], ◌∷◌}
use native.Mathlib.Omega.{arith}
use text.Mathlib.TextLemmas.{nil-append, cons-append}
use go_chat_msa.Common.Tests.{ltb, ◌==◌, ==_iff, str_eq, str_eq_iff, if◌then◌else◌, Bool-cases}
use go_chat_msa.Common.Lists.{length}

abbrev pub contains : String → List String → Bool
contains s [] = false
contains s (t ∷ ts) = str_eq t s || contains s ts

-- No element stands twice.
abbrev pub Unrepeated : List String → Type 0
Unrepeated [] = Unit
Unrepeated (t ∷ ts) = (contains t ts ≡ false) × Unrepeated ts

-- `s <= t` of Go strings: the bytes of UTF-8 are ordered as the code points are.
unfoldable pub str_leb : String → String → Bool
str_leb String.[] t = true
str_leb (String.◌∷◌ c s) String.[] = false
str_leb (String.◌∷◌ c s) (String.◌∷◌ d t) =
    let rest = str_leb s t in
    if ltb (code c) (code d) then true else if code c == code d then rest else false

unfoldable pub insert : String → List String → List String
insert s [] = s ∷ []
insert s (t ∷ ts) = let rest = insert s ts in if str_leb s t then s ∷ t ∷ ts else t ∷ rest

-- slices.Sort.
unfoldable pub sort : List String → List String
sort [] = []
sort (t ∷ ts) = insert t (sort ts)

-- The elements in the order of their first occurrence, less those seen.
unfoldable pub fresh : List String → List String → List String
fresh seen [] = []
fresh seen (t ∷ ts) =
    let rest = fresh seen ts in
    let rest' = fresh (t ∷ seen) ts in if contains t seen then rest else t ∷ rest'

unfoldable pub strip : String → String → Option String
strip String.[] s = some s
strip (String.◌∷◌ c p) String.[] = none
strip (String.◌∷◌ c p) (String.◌∷◌ d s) =
    let rest = strip p s in if code c == code d then rest else none

-- strings.TrimPrefix.
unfoldable pub trim_prefix : String → String → String
unfolding strip
trim_prefix s prefix = elim (strip prefix s) [ none ↦ s | some r ↦ r ]

strip-append : (p s : String) → strip p (text_append p s) ≡ some s
unfolding strip
strip-append String.[] s = ap some (nil-append s)
strip-append (String.◌∷◌ c p) s =
    let same : (code c == code c) ≡ true = (==_iff (code c) (code c)).1 refl in
    rw (cons-append c p s, same, strip) (strip-append p s)

pub trim_prefix-append : (p s : String) → trim_prefix (text_append p s) p ≡ s
unfolding trim_prefix
trim_prefix-append p s = rw (strip-append p s, trim_prefix) refl

pub contains-insert :
    (x s : String) (ts : List String) → contains x (insert s ts) ≡ (str_eq s x || contains x ts)
unfolding insert
contains-insert x s [] = refl
contains-insert x s (t ∷ ts) = ground (arith, contains-insert x s ts)

pub contains-sort : (x : String) (ts : List String) → contains x (sort ts) ≡ contains x ts
unfolding sort
contains-sort x [] = refl
contains-sort x (t ∷ ts) = ground (arith, contains-insert x t (sort ts), contains-sort x ts)

length-insert : (s : String) (ts : List String) → length (insert s ts) ≡ suc (length ts)
unfolding insert
length-insert s [] = refl
length-insert s (t ∷ ts) = ground (arith, length-insert s ts)

pub length-sort : (ts : List String) → length (sort ts) ≡ length ts
unfolding sort
length-sort [] = refl
length-sort (t ∷ ts) = length-insert t (sort ts) ∙ ap suc (length-sort ts)

insert-Unrepeated :
    (s : String) (ts : List String)
    → contains s ts ≡ false
    → Unrepeated ts
    → Unrepeated (insert s ts)
unfolding insert
insert-Unrepeated s [] h d = (refl, tt)
insert-Unrepeated s (t ∷ ts) h d =
    ground (arith, insert-Unrepeated s ts, contains-insert t s ts, str_eq_iff s t, str_eq_iff t s)

pub sort-Unrepeated : (ts : List String) → Unrepeated ts → Unrepeated (sort ts)
unfolding sort
sort-Unrepeated [] d = tt
sort-Unrepeated (t ∷ ts) d =
    insert-Unrepeated t (sort ts) (contains-sort t ts ∙ d.0) (sort-Unrepeated ts d.1)

pub contains-fresh :
    (x : String) (seen ts : List String)
    → contains x (fresh seen ts) ≡ (contains x ts && not (contains x seen))
unfolding fresh
contains-fresh x seen [] = refl
contains-fresh x seen (t ∷ ts) = elim (Bool-cases (str_eq t x)) [
  | inl e ↦
      let same = (str_eq_iff t x).0 e in
      ground (arith, same, contains-fresh x seen ts, contains-fresh x (t ∷ seen) ts)
  | inr e ↦ ground (arith, contains-fresh x seen ts, contains-fresh x (t ∷ seen) ts)
]

pub fresh-Unrepeated : (seen ts : List String) → Unrepeated (fresh seen ts)
unfolding fresh
fresh-Unrepeated seen [] = tt
fresh-Unrepeated seen (t ∷ ts) = ground (
  arith,
  fresh-Unrepeated seen ts,
  fresh-Unrepeated (t ∷ seen) ts,
  contains-fresh t (t ∷ seen) ts,
  str_eq_iff t t,
)

-- Every element of the first list stands in the second.
abbrev pub Within : List String → List String → Type 0
Within xs ys = (x : String) → contains x xs ≡ true → contains x ys ≡ true

-- The list less the first occurrence of a text.
unfoldable drop : String → List String → List String
drop s [] = []
drop s (t ∷ ts) = let rest = drop s ts in if str_eq t s then ts else t ∷ rest

length-drop :
    (s : String) (ts : List String) → contains s ts ≡ true → suc (length (drop s ts)) ≡ length ts
unfolding drop
length-drop s [] h = absurd (ground (arith, h))
length-drop s (t ∷ ts) h = ground (arith, length-drop s ts)

contains-drop :
    (x s : String) (ts : List String) → str_eq s x ≡ false → contains x (drop s ts) ≡ contains x ts
unfolding drop
contains-drop x s [] h = refl
contains-drop x s (t ∷ ts) h =
    ground (arith, contains-drop x s ts h, str_eq_iff t s, str_eq_iff s x, str_eq_iff t x)

Within-drop :
    (x : String) (xs ys : List String)
    → contains x xs ≡ false
    → Within (x ∷ xs) ys
    → Within xs (drop x ys)
Within-drop x xs ys h w y e = elim (Bool-cases (str_eq x y)) [
  | inl same ↦ absurd (ground (arith, (str_eq_iff x y).0 same, h, e))
  | inr other ↦ contains-drop y x ys other ∙ w y (rw other e)
]

-- A list without repetitions that fills a list of no more elements has all of them.
pub filled :
    (xs ys : List String) → Unrepeated xs → length ys ≤ length xs → Within xs ys → Within ys xs
filled [] [] d le w y e = e
filled [] (t ∷ ts) d le w y e = absurd (ground arith)
filled (x ∷ xs) ys d le w y e = elim (Bool-cases (str_eq x y)) [
  | inl same ↦ rw same refl
  | inr other ↦
      let here : contains x ys ≡ true = w x (rw ((str_eq_iff x x).1 refl) refl) in
      let shorter : length (drop x ys) ≤ length xs = ground (arith, length-drop x ys here) in
      let rest =
        filled xs (drop x ys) d.1 shorter (Within-drop x xs ys d.0 w) y
          (contains-drop y x ys other ∙ e) in
      rw other rest
]
