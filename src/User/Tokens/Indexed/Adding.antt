-- ===== src/User/Tokens/Indexed/Adding.antt =====
-- internal/user/refresh_token_store.go: a token that is issued, rotated or revoked keeps the index of its
-- user.
use go_chat_msa.Common.{
  ℕ, ◌+◌, ◌-◌, ◌≤◌, ◌<◌, ◌≡◌, sym, ◌∙◌, subst, String, true, false, some, List, str_eq, str_eq_iff,
  str_eq_refl, find, put, remove, find-put, find-put_hit, find-put_miss, find-remove,
  find-remove_miss, Bool-cases, Option-cases, inl, inr, arith,
}
use go_chat_msa.User.Tokens.{
  Entry, Index, Tokens, active_user, members_of, prune, remaining_ttl, issue_lua, rotate_lua,
  revoke_lua,
}
use go_chat_msa.User.Tokens.Indexed.{
  Covered, Indexed, find-prune, member_in_time, reused_lua-Indexed,
}

-- One token is set for a user, whose index gets it; the others stay, or some go.
module _ (at ttl : ℕ) (user new : String) (members : List (String × ℕ))
    (base used : List (String × Entry)) (t : Tokens) where
  abbrev fresh_index : Index
  fresh_index = record { members = put new (at + ttl) members; expires_at = at + ttl }

  abbrev fresh : Entry
  fresh = record { user_id = user; expires_at = at + ttl }

  abbrev after_set : Tokens
  after_set = record {
    active = put new fresh base;
    used = used;
    index = put user fresh_index t.index;
  }

  set_covers_new :
      (digest : String) (e : Entry)
      → str_eq new digest ≡ true
      → find digest (put new fresh base) ≡ some e
      → Covered digest e after_set × (e.expires_at ≤ at + ttl)
  set_covers_new digest e same found =
      let e_is : some fresh ≡ some e = sym (find-put_hit new digest fresh base same) ∙ found in
      let members_has = find-put new digest (at + ttl) members in
      let index_has = find-put user user fresh_index t.index in
      (
        (
          fresh_index,
          ground (arith, e_is, index_has, str_eq_refl user),
          ground (arith, e_is, members_has),
          ground (arith, e_is),
        ),
        ground (arith, e_is),
      )

  set_covers_old :
      (digest : String) (e : Entry)
      → str_eq new digest ≡ false
      → find digest t.active ≡ some e
      → Covered digest e t × (e.expires_at ≤ at + ttl)
      → at < e.expires_at
      → (find digest (members_of at user t) ≡ some e.expires_at
          → find digest members ≡ some e.expires_at)
      → Covered digest e after_set × (e.expires_at ≤ at + ttl)
  set_covers_old digest e other found ((ix, there, member, le), b) lt kept =
      elim (Bool-cases (str_eq user e.user_id)) [
        | inl u ↦
            let own = (str_eq_iff user e.user_id).0 u in
            let inside =
              subst (λ v. find digest (members_of at v t) ≡ some e.expires_at) (sym own)
                (member_in_time at digest e t lt (ix, there, member, le)) in
            (
              (
                fresh_index,
                ground (arith, u, find-put user e.user_id fresh_index t.index),
                ground (arith, other, kept inside, find-put new digest (at + ttl) members),
                b,
              ),
              b,
            )
        | inr u ↦ (
          (ix, ground (arith, u, there, find-put user e.user_id fresh_index t.index), member, le),
          b,
        )
      ]

  set_active-Indexed :
      Indexed at ttl t
      → ((d : String) (e : Entry) → find d base ≡ some e → find d t.active ≡ some e)
      → ((d : String) (e : Entry)
          → find d base ≡ some e
          → at < e.expires_at
          → find d (members_of at user t) ≡ some e.expires_at
          → find d members ≡ some e.expires_at)
      → Indexed at ttl after_set
  set_active-Indexed h within kept digest e found lt = elim (Bool-cases (str_eq new digest)) [
    | inl same ↦ set_covers_new digest e same found
    | inr other ↦
        let in_base = sym (find-put_miss new digest fresh base other) ∙ found in
        let before = within digest e in_base in
        set_covers_old digest e other before (h digest e before lt) lt (kept digest e in_base lt)
  ]

pub issue_lua-Indexed :
    (at ttl : ℕ) (digest user : String) (t : Tokens)
    → Indexed at ttl t
    → Indexed at ttl (issue_lua at digest user ttl (at + ttl) t).0
unfolding issue_lua
issue_lua-Indexed at ttl digest user t h = elim (Option-cases (active_user at digest t)) [
  | inr (u, e) ↦ rw (e, issue_lua) h
  | inl e ↦
      rw (e, issue_lua)
        (set_active-Indexed at ttl user digest (prune (at + ttl - ttl) (members_of at user t))
          t.active t.used t h (λ d x f. f)
          (λ d x f lt m. find-prune d (at + ttl - ttl) x.expires_at _ m (omega arith)))
]

removed_before :
    (old d : String) (e : Entry) (active : List (String × Entry))
    → find d (remove old active) ≡ some e
    → (find d active ≡ some e) × (str_eq old d ≡ false)
removed_before old d e active h = elim (Bool-cases (str_eq old d)) [
  | inl s ↦ ground (arith, s, h, find-remove old d active)
  | inr s ↦ (ground (arith, s, h, find-remove old d active), s)
]

pub rotate_lua-Indexed :
    (at ttl : ℕ) (old new : String) (t : Tokens)
    → Indexed at ttl t
    → Indexed at ttl (rotate_lua at old new ttl at t).0
unfolding rotate_lua
rotate_lua-Indexed at ttl old new t h = elim (Option-cases (active_user at old t)) [
  | inl e ↦ rw (e, rotate_lua) (reused_lua-Indexed at ttl old t h)
  | inr (user, e) ↦
      rw (e, rotate_lua)
        (set_active-Indexed at ttl user new (remove old (prune at (members_of at user t)))
          (remove old t.active)
          (put old
            (record { user_id = user; expires_at = at + remaining_ttl at (find old t.active) ttl })
            t.used)
          t h (λ d x f. (removed_before old d x t.active f).0)
          (λ d x f lt m.
            find-remove_miss old d (prune at (members_of at user t))
              (removed_before old d x t.active f).1
            ∙ find-prune d at x.expires_at _ m lt))
]

unindexed_covers :
    (digest d user : String) (e : Entry) (ix : Index) (t : Tokens)
    → find user t.index ≡ some ix
    → str_eq digest d ≡ false
    → Covered d e t
    → Covered d e (record t {
      active = remove digest t.active;
      index = put user (record ix { members = remove digest ix.members }) t.index;
    })
unindexed_covers digest d user e ix t n other (own, there, member, le) =
    let shorter : Index = record ix { members = remove digest ix.members } in
    elim (Bool-cases (str_eq user e.user_id)) [
      | inl u ↦ (
        shorter,
        find-put_hit user e.user_id shorter t.index u,
        find-remove_miss digest d ix.members other
            ∙ ground (arith, there, member, n, (str_eq_iff user e.user_id).0 u),
        ground (arith, there, n, le, (str_eq_iff user e.user_id).0 u),
      )
      | inr u ↦ (own, find-put_miss user e.user_id shorter t.index u ∙ there, member, le)
    ]

pub revoke_lua-Indexed :
    (at ttl : ℕ) (digest : String) (t : Tokens)
    → Indexed at ttl t
    → Indexed at ttl (revoke_lua at digest t)
unfolding revoke_lua
revoke_lua-Indexed at ttl digest t h = elim (Option-cases (active_user at digest t)) [
  | inl e ↦ rw (e, revoke_lua) h
  | inr (user, e) ↦ elim (Option-cases (find user t.index)) [
    | inl n ↦ rw (e, n, revoke_lua) λ d x f lt. h d x (removed_before digest d x t.active f).0 lt
    | inr (ix, n) ↦
        rw (e, n, revoke_lua)
          λ d x f lt.
            let (before, other) = removed_before digest d x t.active f in
            let (c, b) = h d x before lt in (unindexed_covers digest d user x ix t n other c, b)
  ]
]
