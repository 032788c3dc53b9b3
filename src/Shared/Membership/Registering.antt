-- ===== src/Shared/Membership/Registering.antt =====
-- internal/shared/membership/registry.go: a registration lasts for its time to live.
use go_chat_msa.Common.{
  ℕ, ◌≡◌, refl, ◌∙◌, String, true, false, ◌&&◌, ◌<◌, ◌+◌, none, some, List, [], ◌∷◌, if◌then◌else◌,
  Bool-cases, Option-cases, inl, inr, arith, str_eq, str_eq_iff, str_eq_refl, find, find-put_hit,
  find-put_miss, find-remove_miss, All, ltb, lt→ltb,
}
use go_chat_msa.Shared.Keyspace.{Keys, Stored, get}
use go_chat_msa.Shared.Membership.{Registry, key, refresh, deregister, compare_and_delete_script}

-- What the servers do to Redis, each at its time; a call that is lost is none of these.
pub data Act : Type 0 where
  refreshes deregisters : Registry → ℕ → Act

unfoldable pub act : Act → Keys → Keys
act (refreshes r now) db = refresh r now db
act (deregisters r now) db = deregister r now db

unfoldable pub act_all : List Act → Keys → Keys
act_all [] db = db
act_all (a ∷ rest) db = act_all rest (act a db)

-- A server of another address, or the end of an earlier process at the same address.
unfoldable pub Foreign : Registry → Act → Type 0
Foreign r (refreshes s now) = str_eq (key s) (key r) ≡ false
Foreign r (deregisters s now) = (str_eq (key s) (key r) && str_eq r.token s.token) ≡ false

abbrev Entered : Registry → ℕ → Keys → Type 0
Entered r at db = find (key r) db ≡ some (record { value = r.token; expires_at = at + r.ttl })

-- The script on a key whose value is another token, or on another key.
script_spares :
    (k j token : String) (m : Stored) (now : ℕ) (db : Keys)
    → find k db ≡ some m
    → (str_eq j k && str_eq m.value token) ≡ false
    → find k (compare_and_delete_script now j token db) ≡ some m
unfolding compare_and_delete_script
script_spares k j token m now db e other = elim (Option-cases (get now j db)) [
  | inl g ↦ rw (g, compare_and_delete_script) e
  | inr (value, g) ↦ elim (Bool-cases (str_eq value token)) [
    | inr keeps ↦ rw (g, keeps, compare_and_delete_script) e
    | inl drops ↦ elim (Bool-cases (str_eq j k)) [
      | inr away ↦ rw (g, drops, compare_and_delete_script) (find-remove_miss j k db away ∙ e)
      | inl same ↦ absurd (clash ((str_eq_iff j k).0 same) value g drops same)
    ]
  ]
]
  where
    clash :
        j ≡ k
        → (value : String) → get now j db ≡ some value
        → str_eq value token ≡ true
        → str_eq j k ≡ true
        → ⊥
    clash j≡k value g drops same =
        let found : find j db ≡ some m = rw j≡k e in
        let read : (if ltb now m.expires_at then some m.value else none) ≡ some value =
          rw found at g in
        ground (arith, read, drops, same, other)

act-Entered :
    (r : Registry) (at : ℕ) (a : Act) (db : Keys)
    → Foreign r a
    → Entered r at db
    → Entered r at (act a db)
unfolding act Foreign refresh deregister
act-Entered r at (refreshes s now) db other e = find-put_miss (key s) (key r) _ db other ∙ e
act-Entered r at (deregisters s now) db other e =
    script_spares (key r) (key s) s.token _ now db e other

act_all-Entered :
    (r : Registry) (at : ℕ) (acts : List Act) (db : Keys)
    → All (Foreign r) acts
    → Entered r at db
    → Entered r at (act_all acts db)
unfolding act_all
act_all-Entered r at [] db f e = e
act_all-Entered r at (a ∷ rest) db f e =
    act_all-Entered r at rest (act a db) f.1 (act-Entered r at a db f.0 e)

-- After a refresh, and whatever servers of other addresses do and earlier processes at the same address
-- take away: until the time to live is over, the key holds the token of the registration.
registered_until_expiry :
    (r : Registry) (at now : ℕ) (acts : List Act) (db : Keys)
    → All (Foreign r) acts
    → now < at + r.ttl
    → get now (key r) (act_all acts (refresh r at db)) ≡ some r.token
unfolding refresh
registered_until_expiry r at now acts db f soon =
    let entered : Entered r at (refresh r at db) =
      find-put_hit (key r) (key r) _ db (str_eq_refl (key r)) in
    let still = act_all-Entered r at acts (refresh r at db) f entered in
    rw (still, get) (rw (lt→ltb now (at + r.ttl) soon) refl)
