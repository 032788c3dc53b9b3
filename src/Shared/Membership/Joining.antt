-- ===== src/Shared/Membership/Joining.antt =====
-- internal/shared/membership: what a server registers, the watcher reads back.
use go_chat_msa.Shared.Membership.Watching.{length_kept}
use go_chat_msa.Common.{
  ◌≡◌, ◌≢◌, refl, subst, ◌∙◌, ap, String, true, false, some, List, [], ◌∷◌, length, Bool-cases, inl,
  inr, arith, str_eq, str_eq_iff, ◌==◌, map,
}
use go_chat_msa.Common.Sets.{
  contains, fresh, contains-sort, contains-fresh, trim_prefix, trim_prefix-append,
}
use go_chat_msa.WsGateway.Ring
use go_chat_msa.WsGateway.Ring.{Consistent, Documented}
use go_chat_msa.WsGateway.Ring.Members.{members-set}
use go_chat_msa.Shared.Membership.{
  Scan, Watcher, Registry, ok, key, dedupe_member_keys, scan_members, collect, apply_members,
  reconcile, run_reconcile, notify, announce,
}

contains-map :
    (f : String → String) (k : String) (keys : List String)
    → contains k keys ≡ true
    → contains (f k) (map f keys) ≡ true
contains-map f k [] h = h
contains-map f k (j ∷ rest) h = elim (Bool-cases (str_eq j k)) [
  | inl same ↦ ground (arith, (str_eq_iff j k).0 same, str_eq_iff (f j) (f k))
  | inr other ↦ ground (arith, contains-map f k rest (rw other at h))
]

contains-dedupe_member_keys :
    (r : Registry) (keys : List String)
    → contains (key r) keys ≡ true
    → contains r.addr (dedupe_member_keys keys r.key_prefix) ≡ true
unfolding dedupe_member_keys
contains-dedupe_member_keys r keys here =
    let trim : String → String = λ k. trim_prefix k r.key_prefix in
    let trimmed = map trim keys in
    let read : contains (trim (key r)) trimmed ≡ true = contains-map trim (key r) keys here in
    let back : trim (key r) ≡ r.addr = trim_prefix-append r.key_prefix r.addr in
    let found : contains r.addr trimmed ≡ true = subst (λ a. contains a trimmed ≡ true) back read in
    contains-sort r.addr (fresh [] trimmed)
    ∙ ground (arith, contains-fresh r.addr [] trimmed, found)

contains_kept : (x : String) (xs : List String) → contains x xs ≡ true → xs ≢ []
contains_kept x [] h e = ground (arith, h)
contains_kept x (y ∷ ys) h e = ground (arith, e)

module _ (lib : Consistent) (doc : Documented lib) where
  open lib use {Carrier, members}

  apply_members_ok :
      (addrs : List String) (w : Watcher lib)
      → (length addrs == 0) ≡ false
      → ((apply_members lib addrs w).0.ring ≡ Ring.set lib addrs w.ring)
        × ((apply_members lib addrs w).1 ≡ ok)
  unfolding apply_members
  apply_members_ok addrs w e = (rw (e, apply_members) refl, rw (e, apply_members) refl)

  run_reconcile_ok :
      (addrs : List String) (answers : Scan) (w : Watcher lib)
      → scan_members w.key_prefix answers ≡ some addrs
      → (length addrs == 0) ≡ false
      → let after = run_reconcile lib answers w in
        (after.ring ≡ Ring.set lib addrs w.ring) × (after.events ≡ true)
  unfolding run_reconcile reconcile notify
  run_reconcile_ok addrs answers w s n =
      let (ring, result) = apply_members_ok addrs w n in
      rw (s, run_reconcile, reconcile) (rw (result, announce) (ring, refl))

  -- If the library adds and removes members as it documents: when a scan under the prefix of a
  -- server ends without an error and gives the server's key, a reconcile puts the server's
  -- address on the ring and leaves an event for the reader.
  pub registered_joins_ring :
      (r : Registry) (answers : Scan) (keys : List String) (w : Watcher lib)
      → w.key_prefix ≡ r.key_prefix
      → collect [] answers ≡ some keys
      → contains (key r) keys ≡ true
      → let after = run_reconcile lib answers w in
        (contains r.addr (members after.ring) ≡ true) × (after.events ≡ true)
  unfolding scan_members
  registered_joins_ring r answers keys w same c here =
      let addrs = dedupe_member_keys keys w.key_prefix in
      let scanned : scan_members w.key_prefix answers ≡ some addrs = rw (c, scan_members) refl in
      let found : contains r.addr addrs ≡ true =
        rw same (contains-dedupe_member_keys r keys here) in
      let (ring, told) =
        run_reconcile_ok addrs answers w scanned
          (length_kept addrs (contains_kept r.addr addrs found)) in
      (
        ap (λ c. contains r.addr (members c)) ring
            ∙ members-set lib doc r.addr addrs w.ring
            ∙ found,
        told,
      )
