-- ===== src/WsGateway/Ring/Members.antt =====
-- internal/wsgateway/loadbalance/loadbalance.go: who is on the ring after Set, and whom Locate finds.
use go_chat_msa.Common.{
  ◌≡◌, ◌≢◌, refl, ◌∙◌, sym, String, Bool, true, false, not, ◌&&◌, ◌||◌, List, [], ◌∷◌, keep,
  Bool-cases, Option-cases, ◌⊎◌, inl, inr, arith, str_eq, str_eq_iff,
}
use go_chat_msa.Common.Sets.{contains, sort, fresh, contains-sort, contains-fresh}
use go_chat_msa.WsGateway.Ring
use go_chat_msa.WsGateway.Ring.{Consistent, Documented, normalize_members}

pub contains-normalize_members :
    (x : String) (addrs : List String) → contains x (normalize_members addrs) ≡ contains x addrs
unfolding normalize_members
contains-normalize_members x addrs =
    contains-sort x (fresh [] addrs) ∙ ground (arith, contains-fresh x [] addrs)

pub contains-keep :
    (p : String → Bool) (x : String) (xs : List String)
    → contains x (keep p xs) ≡ (p x && contains x xs)
contains-keep p x [] = ground arith
contains-keep p x (y ∷ ys) = elim (Bool-cases (str_eq y x)) [
  | inl e ↦
      let same = (str_eq_iff y x).0 e in ground (arith, same, contains-keep p x ys, str_eq_iff x x)
  | inr e ↦ ground (arith, contains-keep p x ys)
]

module _ (lib : Consistent) (doc : Documented lib) where
  open lib use {Carrier, empty, add, remove, members, locate_key}

  members-add_missing :
      (x : String) (current sorted : List String) (c : Carrier)
      → (contains x current ≡ true → contains x (members c) ≡ true)
      → contains x (members (Ring.add_missing lib current sorted c))
        ≡ (contains x sorted || contains x (members c))
  unfolding Ring.add_missing
  members-add_missing x current [] c h = refl
  members-add_missing x current (a ∷ rest) c h = elim (Bool-cases (contains a current)) [
    | inl e ↦
        rw (e, Ring.add_missing)
          (ground (arith, members-add_missing x current rest c h, str_eq_iff a x, e, h))
    | inr e ↦
        let kept : contains x current ≡ true → contains x (members (add a c)) ≡ true =
          λ i. ground (arith, doc.members-add x a c, h i) in
        let ih = members-add_missing x current rest (add a c) kept in
        rw (e, Ring.add_missing) (ih ∙ ground (arith, doc.members-add x a c))
  ]

  members-remove_all :
      (x : String) (gone : List String) (c : Carrier)
      → contains x (members (Ring.remove_all lib gone c))
        ≡ (not (contains x gone) && contains x (members c))
  unfolding Ring.remove_all
  members-remove_all x [] c = refl
  members-remove_all x (a ∷ rest) c =
      members-remove_all x rest (remove a c) ∙ ground (arith, doc.members-remove x a c)

  -- If the library adds and removes members as it documents: after `Set`, whatever was on the
  -- ring before, an address is a member exactly if it is one of the addresses given.
  pub members-set :
      (x : String) (addrs : List String) (c : Carrier)
      → contains x (members (Ring.set lib addrs c)) ≡ contains x addrs
  unfolding Ring.set
  members-set x addrs c =
      let sorted = normalize_members addrs in
      let current = fresh [] (members c) in
      let gone = keep (λ a. not (contains a sorted)) current in
      let same : contains x current ≡ contains x (members c) =
        ground (arith, contains-fresh x [] (members c)) in
      ground (
        arith,
        members-remove_all x (sort gone) (Ring.add_missing lib current sorted c),
        members-add_missing x current sorted c (λ e. sym same ∙ e),
        contains-sort x gone,
        contains-keep (λ a. not (contains a sorted)) x current,
        same,
        contains-normalize_members x addrs,
      )

  -- What Locate finds for a room on a ring without the empty text: a member, or the empty text if
  -- there is no member at all.
  pub locate-member :
      (room_id : String) (c : Carrier)
      → contains "" (members c) ≡ false
      → ((Ring.locate lib room_id c ≡ "") × (members c ≡ []))
        ⊎ ((Ring.locate lib room_id c ≢ "")
            × (contains (Ring.locate lib room_id c) (members c) ≡ true))
  unfolding Ring.locate
  locate-member room_id c no_blank = elim (Option-cases (locate_key room_id c)) [
    | inl e ↦ inl (rw (e, Ring.locate) refl, doc.unlocated room_id c e)
    | inr (m, e) ↦
        let here = doc.located room_id m c e in
        inr (
          rw (e, Ring.locate) (λ blank. ground (arith, here, blank, no_blank)),
          rw (e, Ring.locate) here,
        )
  ]
