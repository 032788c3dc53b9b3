-- ===== src/User/Tokens/Indexed.antt =====
-- internal/user/refresh_token_store.go: which active tokens the index of their user covers.
pub mod Adding
use go_chat_msa.Common.{
  ℕ, ◌+◌, ◌-◌, ◌≤◌, ◌<◌, ◌≡◌, ◌≢◌, refl, sym, ◌∙◌, subst, String, true, false, none, some, List, [],
  ◌∷◌, str_eq, str_eq_iff, str_eq_refl, if◌then◌else◌, find, put, remove, find-put, find-put_hit,
  find-put_miss, find-remove, find-remove_miss, Bool-cases, Option-cases, inl, inr, arith, is_some,
}
use go_chat_msa.User.Tokens.{
  Entry, Index, Tokens, active_user, used_user, members_of, prune, delete_active, remaining_ttl,
  revoke_user_lua, issue_lua, reused_lua, validate_lua, rotate_lua, revoke_lua,
}

-- The index of its user holds an active token with its expiry for a score, and outlives it.
abbrev pub Covered : String → Entry → Tokens → Type 0
Covered digest e t =
    (ix : Index) × (find e.user_id t.index ≡ some ix)
    × (find digest ix.members ≡ some e.expires_at)
    × (e.expires_at ≤ ix.expires_at)

-- Every token that is active at a time is covered, and expires within the TTL.
abbrev pub Indexed : ℕ → ℕ → Tokens → Type 0
Indexed at ttl t =
    (digest : String) (e : Entry)
    → find digest t.active ≡ some e
    → at < e.expires_at
    → Covered digest e t × (e.expires_at ≤ at + ttl)

find-prune :
    (d : String) (top s : ℕ) (ms : List (String × ℕ))
    → find d ms ≡ some s
    → top < s
    → find d (prune top ms) ≡ some s
unfolding find prune
find-prune d top s [] h lt = h
find-prune d top s ((k, v) ∷ ms) h lt = ground (arith, find-prune d top s ms)

find-delete_active :
    (d : String) (ms : List (String × ℕ)) (active : List (String × Entry))
    → find d (delete_active ms active) ≡ (if is_some (find d ms) then none else find d active)
unfolding find delete_active
find-delete_active d [] active = refl
find-delete_active d ((k, v) ∷ ms) active =
    ground (arith, find-delete_active d ms (remove k active), find-remove k d active)

-- Later the same holds of fewer tokens.
pub Indexed-later :
    (at later ttl : ℕ) (t : Tokens) → at ≤ later → Indexed at ttl t → Indexed later ttl t
Indexed-later at later ttl t le h digest e found lt =
    let (c, b) = h digest e found (omega arith) in (c, omega arith)

-- What is still active after a user was revoked was active before and is not in the user's index.
survives :
    (user digest : String) (e : Entry) (ms : List (String × ℕ)) (active : List (String × Entry))
    → find digest (delete_active ms active) ≡ some e
    → (find digest active ≡ some e) × (find digest ms ≡ none)
survives user digest e ms active h = elim (Option-cases (find digest ms)) [
  | inl n ↦ ground (arith, find-delete_active digest ms active)
  | inr (s, n) ↦ ground (arith, find-delete_active digest ms active)
]

-- A covered token of a user is in the user's index.
member_in_time :
    (at : ℕ) (digest : String) (e : Entry) (t : Tokens)
    → at < e.expires_at
    → Covered digest e t
    → find digest (members_of at e.user_id t) ≡ some e.expires_at
member_in_time at digest e t lt (ix, found, member, le) = rw found (ground (arith, member, le, lt))

not_of_user :
    (at ttl : ℕ) (user digest : String) (e : Entry) (t : Tokens)
    → Indexed at ttl t
    → find digest (revoke_user_lua at user t).active ≡ some e
    → at < e.expires_at
    → (e.user_id ≢ user) × (find digest t.active ≡ some e)
unfolding revoke_user_lua
not_of_user at ttl user digest e t h found lt =
    let (before, out) = survives user digest e (members_of at user t) t.active found in
    let inside = member_in_time at digest e t lt (h digest e before lt).0 in
    (
      (λ same.
          ground
            (arith, subst (λ u. find digest (members_of at u t) ≡ some e.expires_at) same inside)),
      before,
    )

-- Revoking a user leaves no token of the user active, and the others covered.
pub revoke_user_lua-none :
    (at ttl : ℕ) (user digest : String) (t : Tokens)
    → Indexed at ttl t
    → active_user at digest (revoke_user_lua at user t) ≢ some user
revoke_user_lua-none at ttl user digest t h active =
    elim (Option-cases (find digest (revoke_user_lua at user t).active)) [
      | inl n ↦ ground (arith, n, active)
      | inr (e, f) ↦ ground (arith, f, active, not_of_user at ttl user digest e t h f)
    ]

pub revoke_user_lua-Indexed :
    (at ttl : ℕ) (user : String) (t : Tokens)
    → Indexed at ttl t
    → Indexed at ttl (revoke_user_lua at user t)
unfolding revoke_user_lua
revoke_user_lua-Indexed at ttl user t h digest e found lt =
    let (other, before) = not_of_user at ttl user digest e t h found lt in
    let ((ix, there, member, le), b) = h digest e before lt in
    (
      (
        ix,
        ground (arith, find-remove user e.user_id t.index, str_eq_iff user e.user_id, other, there),
        member,
        le,
      ),
      b,
    )

pub reused_lua-Indexed :
    (at ttl : ℕ) (digest : String) (t : Tokens)
    → Indexed at ttl t
    → Indexed at ttl (reused_lua at digest t).0
unfolding reused_lua
reused_lua-Indexed at ttl digest t h = elim (Option-cases (used_user at digest t)) [
  | inl e ↦ rw (e, reused_lua) h
  | inr (user, e) ↦ rw (e, reused_lua) (revoke_user_lua-Indexed at ttl user t h)
]

pub validate_lua-Indexed :
    (at ttl : ℕ) (digest : String) (t : Tokens)
    → Indexed at ttl t
    → Indexed at ttl (validate_lua at digest t).0
unfolding validate_lua
validate_lua-Indexed at ttl digest t h = elim (Option-cases (active_user at digest t)) [
  | inl e ↦ rw (e, validate_lua) (reused_lua-Indexed at ttl digest t h)
  | inr (user, e) ↦ rw (e, validate_lua) h
]
