-- ===== src/WsGateway/Ring.antt =====
-- internal/wsgateway/loadbalance/loadbalance.go: the hash ring of the servers. The ring itself,
-- github.com/buraksezer/consistent, is a parameter; the mutex makes each method one step.
pub mod Members
use go_chat_msa.Common.{
  ℕ, ◌≡◌, refl, ◌∙◌, sym, String, Bool, true, false, not, ◌&&◌, ◌||◌, Option, none, some, List, [],
  ◌∷◌, if◌then◌else◌, str_eq, length, keep, Bool-cases, inl, inr, arith,
}
use go_chat_msa.Common.Sets.{
  contains, Unrepeated, sort, fresh, contains-sort, contains-fresh, fresh-Unrepeated,
  sort-Unrepeated,
}

-- `consistent.New(nil, cfg)`, `Add`, `Remove`, `GetMembers` and `LocateKey`.
pub record Consistent : Type 1 where
  pub Carrier : Type 0
  pub empty : Carrier
  pub add : String → Carrier → Carrier
  pub remove : String → Carrier → Carrier
  pub members : Carrier → List String
  pub locate_key : String → Carrier → Option String

-- What the package documents: a member is added or removed, and a key belongs to a member, if
-- there is one.
pub record Documented (lib : Consistent) : Type 0 where
  pub members-empty : lib.members lib.empty ≡ []
  pub members-add :
      (x a : String) (c : lib.Carrier)
      → contains x (lib.members (lib.add a c)) ≡ (str_eq a x || contains x (lib.members c))
  pub members-remove :
      (x a : String) (c : lib.Carrier)
      → contains x (lib.members (lib.remove a c)) ≡ (not (str_eq a x) && contains x (lib.members c))
  pub located :
      (k x : String) (c : lib.Carrier)
      → lib.locate_key k c ≡ some x
      → contains x (lib.members c) ≡ true
  pub unlocated : (k : String) (c : lib.Carrier) → lib.locate_key k c ≡ none → lib.members c ≡ []

unfoldable pub normalize_members : List String → List String
normalize_members addrs = sort (fresh [] addrs)

module _ (lib : Consistent) where
  open lib use {Carrier, empty, add, remove, members, locate_key}

  -- inst.Add for every endpoint.
  unfoldable pub add_all : List String → Carrier → Carrier
  add_all [] c = c
  add_all (a ∷ rest) c = add_all rest (add a c)

  -- The loop of `Set` over the addresses, with the members before it.
  unfoldable pub add_missing : List String → List String → Carrier → Carrier
  add_missing current [] c = c
  add_missing current (a ∷ rest) c =
      add_missing current rest (if contains a current then c else add a c)

  unfoldable pub remove_all : List String → Carrier → Carrier
  remove_all [] c = c
  remove_all (a ∷ rest) c = remove_all rest (remove a c)

  unfoldable pub new : List String → Carrier
  new endpoints = add_all (normalize_members endpoints) empty

  unfoldable pub locate : String → Carrier → String
  locate room_id c = elim (locate_key room_id c) [ none ↦ "" | some found ↦ found ]

  unfoldable pub set : List String → Carrier → Carrier
  set addrs c =
      let sorted_addrs = normalize_members addrs in
      let current = fresh [] (members c) in
      let to_remove = sort (keep (λ a. not (contains a sorted_addrs)) current) in
      remove_all to_remove (add_missing current sorted_addrs c)

  unfoldable pub len : Carrier → ℕ
  len c = length (members c)

  -- `Contains`.
  unfoldable pub has_member : String → Carrier → Bool
  has_member addr c = contains addr (members c)
