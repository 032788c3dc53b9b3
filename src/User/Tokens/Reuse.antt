-- ===== src/User/Tokens/Reuse.antt =====
-- internal/user/refresh_token_store.go: what happens to the tokens of a user when one of them is used
-- a second time.
use go_chat_msa.Common.{
  ℕ, ◌+◌, ◌≤◌, ◌<◌, ◌≡◌, ◌≢◌, refl, sym, ap, String, Bool, true, false, none, some, List, [], ◌∷◌,
  str_eq, str_eq-false, str_eq_refl, if◌then◌else◌, find, remove, find-put_hit, find-put_miss,
  find-remove, find-empty, arith, ◌||◌, ◌==◌,
}
use go_chat_msa.Websocket.Lease.{Net, delivered, call_lost, reply_lost}
use go_chat_msa.User.Tokens.{
  Entry, Tokens, active_user, used_user, revoke_user_lua, reused_lua, validate_lua, rotate_lua,
  valid, reused, ok, parse_reply, valid_input, issue, validate, rotate, revoke, revoke_user,
  remaining_ttl, call,
}
use go_chat_msa.User.Tokens.Indexed.{
  Indexed, Indexed-later, revoke_user_lua-none, revoke_user_lua-Indexed, validate_lua-Indexed,
}
use go_chat_msa.User.Tokens.Indexed.Adding.{
  issue_lua-Indexed, rotate_lua-Indexed, revoke_lua-Indexed,
}

-- A call of a server, with what the network does to it and when it runs.
pub data Op : Type 0 where
  issues rotates : Net → ℕ → String → String → Op
  validates revokes revokes_user : Net → ℕ → String → Op

abbrev pub time : Op → ℕ
time (issues net at user token) = at
time (rotates net at old new) = at
time (validates net at token) = at
time (revokes net at token) = at
time (revokes_user net at user) = at

abbrev pub no_tokens : Tokens
no_tokens = record { active = []; used = []; index = [] }

abbrev pub InOrder : ℕ → List Op → Type 0
InOrder at [] = Unit
InOrder at (o ∷ os) = (at ≤ time o) × InOrder (time o) os

-- The time of the last call.
abbrev pub last_time : ℕ → List Op → ℕ
last_time at [] = at
last_time at (o ∷ os) = last_time (time o) os

either-Indexed :
    {R : Type 0} (at ttl : ℕ) (b : Bool) (x y : Tokens × R)
    → Indexed at ttl x.0
    → Indexed at ttl y.0
    → Indexed at ttl (if b then x else y).0
either-Indexed at ttl true x y h k = h
either-Indexed at ttl false x y h k = k

call-Indexed :
    {A : Type 0} (at ttl : ℕ) (net : Net) (script : Tokens → Tokens × A) (t : Tokens)
    → Indexed at ttl t
    → Indexed at ttl (script t).0
    → Indexed at ttl (call net script t).0
call-Indexed at ttl delivered script t h k = k
call-Indexed at ttl call_lost script t h k = h
call-Indexed at ttl reply_lost script t h k = k

module _ (hash : String → String) (ttl : ℕ) where
  -- The servers' clocks and that of Redis agree, and every token has the same TTL.
  unfoldable pub apply : Op → Tokens → Tokens
  apply (issues net at user token) t = (issue hash net at at user token ttl t).0
  apply (rotates net at old new) t = (rotate hash net at at old new ttl t).0
  apply (validates net at token) t = (validate hash net at token t).0
  apply (revokes net at token) t = (revoke hash net at token t).0
  apply (revokes_user net at user) t = (revoke_user net at user t).0

  unfoldable pub apply_all : List Op → Tokens → Tokens
  apply_all [] t = t
  apply_all (o ∷ os) t = apply_all os (apply o t)

  apply-Indexed : (o : Op) (t : Tokens) → Indexed (time o) ttl t → Indexed (time o) ttl (apply o t)
  unfolding apply issue rotate validate revoke revoke_user
  apply-Indexed (issues net at user token) t h =
      either-Indexed at ttl (valid_input user token ttl) _ _
        (call-Indexed at ttl net _ t h (issue_lua-Indexed at ttl (hash token) user t h)) h
  apply-Indexed (rotates net at old new) t h =
      either-Indexed at ttl (str_eq old "" || str_eq new "" || ttl == 0) _ _ h
        (call-Indexed at ttl net _ t h (rotate_lua-Indexed at ttl (hash old) (hash new) t h))
  apply-Indexed (validates net at token) t h =
      either-Indexed at ttl (str_eq token "") _ _ h
        (call-Indexed at ttl net _ t h (validate_lua-Indexed at ttl (hash token) t h))
  apply-Indexed (revokes net at token) t h =
      either-Indexed at ttl (str_eq token "") _ _ h
        (call-Indexed at ttl net _ t h (revoke_lua-Indexed at ttl (hash token) t h))
  apply-Indexed (revokes_user net at user) t h =
      either-Indexed at ttl (str_eq user "") _ _ h
        (call-Indexed at ttl net _ t h (revoke_user_lua-Indexed at ttl user t h))

  apply_all-Indexed :
      (at : ℕ) (os : List Op) (t : Tokens)
      → InOrder at os
      → Indexed at ttl t
      → Indexed (last_time at os) ttl (apply_all os t)
  unfolding apply_all
  apply_all-Indexed at [] t le h = h
  apply_all-Indexed at (o ∷ os) t (le, les) h =
      apply_all-Indexed (time o) os (apply o t) les
        (apply-Indexed o t (Indexed-later at (time o) ttl t le h))

  no_tokens-Indexed : (at : ℕ) → Indexed at ttl no_tokens
  no_tokens-Indexed at digest e found lt = ground (arith, find-empty {V = Entry} digest)

  validate_valid :
      (at : ℕ) (user token : String) (t : Tokens)
      → token ≢ ""
      → active_user at (hash token) t ≡ some user
      → (validate hash delivered at token t).1 ≡ ok (valid, user)
  unfolding validate validate_lua parse_reply
  validate_valid at user token t named here =
      rw (str_eq-false token "" named, here, validate, validate_lua) refl

  validate_reused :
      (at : ℕ) (user token : String) (t : Tokens)
      → token ≢ ""
      → active_user at (hash token) t ≡ none
      → used_user at (hash token) t ≡ some user
      → validate hash delivered at token t ≡ (revoke_user_lua at user t, ok (reused, user))
  unfolding validate validate_lua reused_lua parse_reply
  validate_reused at user token t named gone once =
      rw (str_eq-false token "" named, gone, once, validate, validate_lua, reused_lua) refl

  rotate_reused :
      (at now : ℕ) (user token new : String) (t : Tokens)
      → token ≢ ""
      → new ≢ ""
      → 0 < ttl
      → active_user at (hash token) t ≡ none
      → used_user at (hash token) t ≡ some user
      → rotate hash delivered at now token new ttl t
        ≡ (revoke_user_lua at user t, ok (reused, user))
  unfolding rotate rotate_lua reused_lua parse_reply
  rotate_reused at now user token new t named named' some_ttl gone once =
      let positive : (ttl == 0) ≡ false = ground arith in
      rw
        (
          str_eq-false token "" named,
          str_eq-false new "" named',
          positive,
          gone,
          once,
          rotate,
          rotate_lua,
          reused_lua,
        )
        refl

  -- From a store without tokens, whatever calls are made in the order of time, delivered or
  -- not, with one positive TTL for all tokens and clocks that agree: when a token that is no
  -- longer active but known as used by a user comes back, validating it, or rotating it to a
  -- token that is not empty, reports the reuse, and no token of that user is active afterwards.
  pub reuse_revokes_all :
      (os : List Op) (at : ℕ) (user token new other : String)
      → InOrder 0 os
      → last_time 0 os ≤ at
      → token ≢ ""
      → new ≢ ""
      → 0 < ttl
      → active_user at (hash token) (apply_all os no_tokens) ≡ none
      → used_user at (hash token) (apply_all os no_tokens) ≡ some user
      → let t = apply_all os no_tokens in
        let (t1, seen) = validate hash delivered at token t in
        let (t2, turned) = rotate hash delivered at at token new ttl t in
        (seen ≡ ok (reused, user))
        × (turned ≡ ok (reused, user))
        × (active_user at (hash other) t1 ≢ some user)
        × (active_user at (hash other) t2 ≢ some user)
  reuse_revokes_all os at user token new other ord late named named' some_ttl gone once =
      let t = apply_all os no_tokens in
      let h =
        Indexed-later (last_time 0 os) at ttl t late
          (apply_all-Indexed 0 os no_tokens ord (no_tokens-Indexed 0)) in
      let dead = revoke_user_lua-none at ttl user (hash other) t h in
      let checked = validate_reused at user token t named gone once in
      let turned = rotate_reused at at user token new t named named' some_ttl gone once in
      (ap (λ r. r.1) checked, ap (λ r. r.1) turned, rw checked dead, rw turned dead)

  rotated :
      (at later : ℕ) (old new : String) (e : Entry) (t : Tokens)
      → old ≢ ""
      → new ≢ ""
      → hash old ≢ hash new
      → 0 < ttl
      → find (hash old) t.active ≡ some e
      → at < e.expires_at
      → at ≤ later
      → later < e.expires_at
      → later < at + ttl
      → let (t1, turned) = rotate hash delivered at at old new ttl t in
        (turned ≡ ok (valid, e.user_id))
        × (active_user later (hash new) t1 ≡ some e.user_id)
        × (active_user later (hash old) t1 ≡ none)
        × (used_user later (hash old) t1 ≡ some e.user_id)
  unfolding rotate rotate_lua parse_reply
  rotated at later old new e t n1 n2 ne some_ttl found lt le before short =
      let positive : (ttl == 0) ≡ false = ground arith in
      let here : active_user at (hash old) t ≡ some e.user_id = ground (arith, found, lt) in
      let left = remaining_ttl at (find (hash old) t.active) ttl in
      let fresh : Entry = record { user_id = e.user_id; expires_at = at + ttl } in
      let spent : Entry = record { user_id = e.user_id; expires_at = at + left } in
      let new_there =
        find-put_hit (hash new) (hash new) fresh (remove (hash old) t.active)
          (str_eq_refl (hash new)) in
      let old_gone =
        find-put_miss (hash new) (hash old) fresh (remove (hash old) t.active)
          (str_eq-false (hash new) (hash old) (λ q. ne (sym q))) in
      let old_used = find-put_hit (hash old) (hash old) spent t.used (str_eq_refl (hash old)) in
      let removed = find-remove (hash old) (hash old) t.active in
      rw (str_eq-false old "" n1, str_eq-false new "" n2, positive, here, rotate, rotate_lua)
        (
          refl,
          ground (arith, new_there, short),
          ground (arith, old_gone, removed, str_eq_refl (hash old)),
          ground (arith, old_used, found, before, lt),
        )

  -- With a positive TTL, and tokens that are not empty, the old and the new of different
  -- hashes: rotating an active token succeeds, and until the old token would have expired and
  -- while the new one is live: the new token is valid for the same user, and the old one is
  -- reported as reused, both when it is validated and when it is rotated again.
  pub rotated_once :
      (at later : ℕ) (old new newer : String) (e : Entry) (t : Tokens)
      → old ≢ ""
      → new ≢ ""
      → newer ≢ ""
      → hash old ≢ hash new
      → 0 < ttl
      → find (hash old) t.active ≡ some e
      → at < e.expires_at
      → at ≤ later
      → later < e.expires_at
      → later < at + ttl
      → let (t1, turned) = rotate hash delivered at at old new ttl t in
        (turned ≡ ok (valid, e.user_id))
        × ((validate hash delivered later new t1).1 ≡ ok (valid, e.user_id))
        × ((validate hash delivered later old t1).1 ≡ ok (reused, e.user_id))
        × ((rotate hash delivered later later old newer ttl t1).1 ≡ ok (reused, e.user_id))
  rotated_once at later old new newer e t n1 n2 n3 ne some_ttl found lt le before short =
      let (turned, fresh, gone, once) =
        rotated at later old new e t n1 n2 ne some_ttl found lt le before short in
      let t1 = (rotate hash delivered at at old new ttl t).0 in
      (
        turned,
        validate_valid later e.user_id new t1 n2 fresh,
        ap (λ r. r.1) (validate_reused later e.user_id old t1 n1 gone once),
        ap (λ r. r.1) (rotate_reused later later e.user_id old newer t1 n1 n3 some_ttl gone once),
      )
