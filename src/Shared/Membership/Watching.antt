-- ===== src/Shared/Membership/Watching.antt =====
-- internal/shared/membership/watcher.go: the ring follows the members, and is not emptied.
use go_chat_msa.Common.{
  ◌≡◌, ◌≢◌, refl, subst, ◌∙◌, sym, ap, String, true, false, not, ◌&&◌, some, List, [], ◌∷◌, length,
  Bool-cases, Option-cases, inl, inr, arith, str_eq, str_eq_iff, ◌==◌, map, ◌≤◌,
}
use go_chat_msa.Common.Sets.{
  contains, Unrepeated, Within, filled, sort, fresh, contains-fresh, fresh-Unrepeated,
  sort-Unrepeated, trim_prefix,
}
use go_chat_msa.WsGateway.Ring
use go_chat_msa.WsGateway.Ring.{Consistent, Documented}
use go_chat_msa.WsGateway.Ring.Members.{members-set}
use go_chat_msa.Shared.Membership.{
  Scan, Watcher, Event, Outcome, ok, empty_skipped, failed, dedupe_member_keys, scan_members,
  collect, membership_changed, all_in, to_set, apply_members, reconcile, run_reconcile, notify,
  force_reconcile, announce, step, run, new_watcher,
}

-- Equal as sets.
abbrev pub Same : List String → List String → Type 0
Same xs ys = (x : String) → contains x xs ≡ contains x ys

Same-empty : (xs : List String) → Same xs [] → xs ≡ []
Same-empty [] h = refl
Same-empty (x ∷ xs) h = absurd (ground (arith, h x, str_eq_iff x x))

mutual_inclusion : (xs ys : List String) → Within xs ys → Within ys xs → Same xs ys
mutual_inclusion xs ys a b x = ground (arith, a x, b x)

Within-all_in : (known xs : List String) → all_in known xs ≡ true → Within xs known
Within-all_in known [] h x e = absurd (ground (arith, e))
Within-all_in known (y ∷ ys) h x e = elim (Bool-cases (str_eq y x)) [
  | inl same ↦ ground (arith, (str_eq_iff y x).0 same, h)
  | inr other ↦ Within-all_in known ys (ground (arith, h)) x (ground (arith, e, other))
]

-- An unchanged set of last addresses has the new ones.
unchanged :
    (last_addrs addrs : List String)
    → Unrepeated addrs
    → membership_changed last_addrs addrs ≡ false
    → Same last_addrs addrs
unfolding membership_changed
unchanged last_addrs addrs d h =
    let within = Within-all_in last_addrs addrs (ground (arith, h)) in
    let full : length last_addrs ≤ length addrs = ground (arith, h) in
    mutual_inclusion last_addrs addrs (filled addrs last_addrs d full within) within

pub dedupe_member_keys-Unrepeated :
    (keys : List String) (prefix : String) → Unrepeated (dedupe_member_keys keys prefix)
unfolding dedupe_member_keys
dedupe_member_keys-Unrepeated keys prefix =
    let trimmed = map (λ k. trim_prefix k prefix) keys in
    sort-Unrepeated (fresh [] trimmed) (fresh-Unrepeated [] trimmed)

scan_members-Unrepeated :
    (prefix : String) (answers : Scan) (addrs : List String)
    → scan_members prefix answers ≡ some addrs
    → Unrepeated addrs
unfolding scan_members
scan_members-Unrepeated prefix answers addrs e = elim (Option-cases (collect [] answers)) [
  | inl c ↦ absurd (ground (arith, e, c))
  | inr (keys, c) ↦
      let same : some (dedupe_member_keys keys prefix) ≡ some addrs = rw (c, scan_members) at e in
      let these : dedupe_member_keys keys prefix ≡ addrs = ground (arith, same) in
      subst Unrepeated these (dedupe_member_keys-Unrepeated keys prefix)
]

module _ (lib : Consistent) (doc : Documented lib) where
  open lib use {Carrier, members}

  -- The ring has the last addresses.
  abbrev pub Followed : Watcher lib → Type 0
  Followed w = Same (members w.ring) w.last_addrs

  apply_members-Followed :
      (addrs : List String) (w : Watcher lib)
      → Unrepeated addrs
      → Followed w
      → Followed (apply_members lib addrs w).0
  unfolding apply_members
  apply_members-Followed addrs w d f x =
      elim (Bool-cases (length addrs == 0 && not (length w.last_addrs == 0))) [
        | inl e ↦ rw (e, apply_members) (f x)
        | inr e ↦ elim (Bool-cases (membership_changed w.last_addrs addrs)) [
          | inl c ↦
              rw (e, c, apply_members)
                (members-set lib doc x addrs w.ring ∙ ground (arith, contains-fresh x [] addrs))
          | inr c ↦
              rw (e, c, apply_members)
                (members-set lib doc x addrs w.ring ∙ sym (unchanged w.last_addrs addrs d c x))
        ]
      ]

  reconcile-Followed :
      (answers : Scan) (w : Watcher lib) → Followed w → Followed (reconcile lib answers w).0
  unfolding reconcile
  reconcile-Followed answers w f = elim (Option-cases (scan_members w.key_prefix answers)) [
    | inl e ↦ rw (e, reconcile) f
    | inr (addrs, e) ↦
        rw (e, reconcile)
          (apply_members-Followed addrs w (scan_members-Unrepeated w.key_prefix answers addrs e) f)
  ]

  announce-Followed : (o : Outcome) (w : Watcher lib) → Followed w → Followed (announce lib o w)
  unfolding notify
  announce-Followed ok w f = f
  announce-Followed empty_skipped w f = f
  announce-Followed failed w f = f

  step-Followed : (e : Event lib) (w : Watcher lib) → Followed w → Followed (step lib e w)
  unfolding step run_reconcile force_reconcile
  step-Followed (Event.starts answers) w f = reconcile-Followed answers w f
  step-Followed (Event.woken answers) w f = announce-Followed _ _ (reconcile-Followed answers w f)
  step-Followed (Event.forced answers) w f = elim (Bool-cases w.force_ch) [
    | inl e ↦
        rw (e, step)
          (announce-Followed _ _ (reconcile-Followed answers (record w { force_ch = false }) f))
    | inr e ↦ rw (e, step) f
  ]
  step-Followed Event.force w f = f
  step-Followed Event.reads w f = f

  pub run-Followed :
      (es : List (Event lib)) (w : Watcher lib) → Followed w → Followed (run lib es w)
  unfolding run
  run-Followed [] w f = f
  run-Followed (e ∷ es) w f = run-Followed es (step lib e w) (step-Followed e w f)

  pub new_watcher-Followed : (prefix : String) → Followed (new_watcher lib prefix (Ring.new lib []))
  unfolding new_watcher Ring.new Ring.add_all Ring.normalize_members sort fresh
  new_watcher-Followed prefix x = ap (contains x) doc.members-empty

to_set_kept : (addrs : List String) → addrs ≢ [] → to_set addrs ≢ []
unfolding fresh
to_set_kept [] n h = n refl
to_set_kept (a ∷ rest) n h = absurd (ground (arith, h))

pub length_kept : (xs : List String) → xs ≢ [] → (length xs == 0) ≡ false
length_kept [] n = absurd (n refl)
length_kept (x ∷ xs) n = ground arith

kept_length : (xs : List String) → (length xs == 0) ≡ false → xs ≢ []
kept_length [] h e = ground (arith, h)
kept_length (x ∷ xs) h e = ground (arith, e)

module _ (lib : Consistent) (doc : Documented lib) where
  open lib use {Carrier, members}

  apply_members_kept :
      (addrs : List String) (w : Watcher lib)
      → w.last_addrs ≢ []
      → (apply_members lib addrs w).0.last_addrs ≢ []
  unfolding apply_members
  apply_members_kept addrs w n =
      elim (Bool-cases (length addrs == 0 && not (length w.last_addrs == 0))) [
        | inl e ↦ rw (e, apply_members) n
        | inr e ↦ elim (Bool-cases (membership_changed w.last_addrs addrs)) [
          | inl c ↦
              rw (e, c, apply_members)
                (to_set_kept addrs
                  (kept_length addrs (ground (arith, e, length_kept w.last_addrs n))))
          | inr c ↦ rw (e, c, apply_members) n
        ]
      ]

  reconcile_kept :
      (answers : Scan) (w : Watcher lib)
      → w.last_addrs ≢ []
      → (reconcile lib answers w).0.last_addrs ≢ []
  unfolding reconcile
  reconcile_kept answers w n = elim (Option-cases (scan_members w.key_prefix answers)) [
    | inl e ↦ rw (e, reconcile) n
    | inr (addrs, e) ↦ rw (e, reconcile) (apply_members_kept addrs w n)
  ]

  announce_kept :
      (o : Outcome) (w : Watcher lib) → w.last_addrs ≢ [] → (announce lib o w).last_addrs ≢ []
  unfolding notify
  announce_kept ok w n = n
  announce_kept empty_skipped w n = n
  announce_kept failed w n = n

  step_kept : (e : Event lib) (w : Watcher lib) → w.last_addrs ≢ [] → (step lib e w).last_addrs ≢ []
  unfolding step run_reconcile force_reconcile
  step_kept (Event.starts answers) w n = reconcile_kept answers w n
  step_kept (Event.woken answers) w n = announce_kept _ _ (reconcile_kept answers w n)
  step_kept (Event.forced answers) w n = elim (Bool-cases w.force_ch) [
    | inl e ↦
        rw (e, step) (announce_kept _ _ (reconcile_kept answers (record w { force_ch = false }) n))
    | inr e ↦ rw (e, step) n
  ]
  step_kept Event.force w n = n
  step_kept Event.reads w n = n

  run_kept :
      (es : List (Event lib)) (w : Watcher lib) → w.last_addrs ≢ [] → (run lib es w).last_addrs ≢ []
  unfolding run
  run_kept [] w n = n
  run_kept (e ∷ es) w n = run_kept es (step lib e w) (step_kept e w n)

  -- If the library adds and removes members as it documents: from a new watcher with a new ring
  -- on, whatever events happen and whatever the scans answer, a ring that has a member has a
  -- member ever after.
  pub never_emptied :
      (prefix : String) (es more : List (Event lib))
      → let before = run lib es (new_watcher lib prefix (Ring.new lib [])) in
        members before.ring ≢ [] → members (run lib more before).ring ≢ []
  never_emptied prefix es more n gone =
      let before = run lib es (new_watcher lib prefix (Ring.new lib [])) in
      let f = run-Followed lib doc es _ (new_watcher-Followed lib doc prefix) in
      let g = run-Followed lib doc more before f in
      let had : before.last_addrs ≢ [] =
        λ e. n (Same-empty _ (subst (Same (members before.ring)) e f)) in
      run_kept more before had (Same-empty _ (λ x. sym (g x) ∙ ap (contains x) gone))
