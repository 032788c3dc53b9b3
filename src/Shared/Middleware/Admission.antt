-- ===== src/Shared/Middleware/Admission.antt =====
-- internal/shared/middleware: whom a chain of middlewares lets through to the handler.
use go_chat_msa.Common.{
  ℕ, ◌≡◌, ◌≢◌, refl, ◌∙◌, ◌⊎◌, inl, inr, String, false, some, [], ◌∷◌, str_eq, str_ne, str_eq_iff,
  Bool-cases, Option-cases,
}
use go_chat_msa.Shared.Http.{Response, problem, status_unauthorized, status_too_many_requests}
use go_chat_msa.Shared.Middleware.{
  UserClaims, Libraries, Request, Handler, extract_token, verify_jwt, user_key, bearer_auth,
  internal_auth, rate_limit, chain_middleware, limiter_allows,
}

-- The state is as before and the response is a problem with that status.
abbrev pub Turned : {S A : Type 0} → ℕ → S → S × Response A → Type 0
Turned status s x = x ≡ (s, problem status)

module _ (lib : Libraries) {R S A : Type 0} where
  pub bearer_auth-cases :
      (secret : String) (next : Handler R S A) (req : Request R) (s : S)
      → Turned status_unauthorized s (bearer_auth lib secret next req s)
        ⊎ ((c : UserClaims) × (verify_jwt lib (extract_token req.authorization) secret ≡ some c)
            × (bearer_auth lib secret next req s ≡ next (record req { claims = some c }) s))
  unfolding bearer_auth
  bearer_auth-cases secret next req s =
      let token = extract_token req.authorization in
      elim (Bool-cases (str_eq token "")) [
        | inl e ↦ inl (rw (e, bearer_auth) refl)
        | inr e ↦ elim (Option-cases (verify_jwt lib token secret)) [
          | inl v ↦ inl (rw (e, v, bearer_auth) refl)
          | inr (c, v) ↦ inr (c, v, rw (e, v, bearer_auth) refl)
        ]
      ]

  pub rate_limit-cases :
      (key_of : Request R → String) (next : Handler R S A) (req : Request R) (s : S)
      → ((limiter_allows lib (key_of req) ≡ some false)
          × Turned status_too_many_requests s (rate_limit lib key_of next req s))
        ⊎ (rate_limit lib key_of next req s ≡ next req s)
  unfolding rate_limit
  rate_limit-cases key_of next req s = elim (Bool-cases (str_eq (key_of req) "")) [
    | inl e ↦ inr (rw (e, rate_limit) refl)
    | inr e ↦ elim (Option-cases (limiter_allows lib (key_of req))) [
      | inl v ↦ inr (rw (e, v, rate_limit) refl)
      | inr (allowed, v) ↦ elim (Bool-cases allowed) [
        | inl a ↦ inr (rw (e, v, a, rate_limit) refl)
        | inr a ↦ inl (rw a at v, rw (e, v, a, rate_limit) refl)
      ]
    ]
  ]

  -- Behind bearer authentication and a limiter by the user: status 401, or a verified token and then status
  -- 429 or the handler with its claims.
  pub authenticated :
      (secret : String) (h : Handler R S A) (req : Request R) (s : S)
      → let served =
          chain_middleware h (bearer_auth lib secret ∷ rate_limit lib user_key ∷ []) req s in
        Turned status_unauthorized s served
        ⊎ ((c : UserClaims) × (verify_jwt lib (extract_token req.authorization) secret ≡ some c)
            × (((limiter_allows lib c.subject ≡ some false)
                  × Turned status_too_many_requests s served)
                ⊎ (served ≡ h (record req { claims = some c }) s)))
  unfolding chain_middleware user_key
  authenticated secret h req s =
      let limited = rate_limit lib user_key h in
      elim (bearer_auth-cases secret limited req s) [
        | inl t ↦ inl t
        | inr (c, v, e) ↦ elim (rate_limit-cases user_key h (record req { claims = some c }) s) [
          | inl (full, t) ↦ inr (c, v, inl (full, e ∙ t))
          | inr through ↦ inr (c, v, inr (e ∙ through))
        ]
      ]

pub internal_auth-cases :
    {R S A : Type 0} (secret : String) (next : Handler R S A) (req : Request R) (s : S)
    → ((req.internal_secret ≢ secret)
        × Turned status_unauthorized s (internal_auth secret next req s))
      ⊎ ((req.internal_secret ≡ secret) × (internal_auth secret next req s ≡ next req s))
unfolding internal_auth
internal_auth-cases secret next req s = elim (Bool-cases (str_eq req.internal_secret secret)) [
  | inl e ↦ inr ((str_eq_iff req.internal_secret secret).0 e, rw (e, internal_auth) refl)
  | inr e ↦ inl (str_ne req.internal_secret secret e, rw (e, internal_auth) refl)
]
