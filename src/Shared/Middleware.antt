-- ===== src/Shared/Middleware.antt =====
-- internal/shared/middleware and internal/shared/auth: what stands before a handler. The JWT library,
-- the limiter on Redis and net.SplitHostPort are parameters; logging is left out.
pub mod Admission
use Prim.Native.Char.{Char, code}
use go_chat_msa.Common.{
  ℕ, ◌+◌, String, Bool, true, false, not, ◌&&◌, Option, none, some, List, [], ◌∷◌, ltb, leb, ◌==◌,
  str_eq, if◌then◌else◌,
}
use go_chat_msa.Shared.Http.{Response, problem, status_unauthorized, status_too_many_requests}

pub record UserClaims : Type 0 where
  pub subject : String
  pub username : String

-- jwt.ParseWithClaims with a secret and the valid methods, the limiter's `Allow` with how many
-- requests it lets through (nothing for an error), net.SplitHostPort and strings.TrimSpace.
pub record Libraries : Type 0 where
  pub parse_with_claims : String → String → List String → Option (UserClaims × Bool)
  pub allow : String → Option ℕ
  pub split_host_port : String → Option String
  pub trim_space : String → String

-- A request with its headers, the claims in its context, and what else its handler reads.
pub record Request (R : Type 0) : Type 0 where
  pub authorization : String
  pub internal_secret : String
  pub forwarded_for : String
  pub remote_addr : String
  pub claims : Option UserClaims
  pub input : R

abbrev pub Handler : Type 0 → Type 0 → Type 0 → Type 0
Handler R S A = Request R → S → S × Response A

abbrev glue : Char → List String → List String
glue c [] = String.◌∷◌ c String.[] ∷ []
glue c (p ∷ ps) = String.◌∷◌ c p ∷ ps

-- strings.Split at a character.
unfoldable pub split : ℕ → String → List String
split sep String.[] = "" ∷ []
split sep (String.◌∷◌ c s) =
    let parts = split sep s in if code c == sep then "" ∷ parts else glue c parts

abbrev lower : ℕ → ℕ
lower c = if leb b'A' c && leb c b'Z' then c + 32 else c

-- strings.ToLower(s) == t, for a text t of small letters of ASCII without i, k and s.
unfoldable pub lower_eq : String → String → Bool
lower_eq String.[] String.[] = true
lower_eq String.[] (String.◌∷◌ d t) = false
lower_eq (String.◌∷◌ c s) String.[] = false
lower_eq (String.◌∷◌ c s) (String.◌∷◌ d t) =
    let rest = lower_eq s t in if lower (code c) == code d then rest else false

abbrev bearer_part : List String → String
bearer_part (scheme ∷ token ∷ []) = if lower_eq scheme "bearer" then token else ""
bearer_part _ = ""

unfoldable pub extract_token : String → String
extract_token authorization =
    if str_eq authorization "" then "" else bearer_part (split 32 authorization)

abbrev pub get_user_id : {R : Type 0} → Request R → Option String
get_user_id req = elim (req.claims) [ none ↦ none | some c ↦ some c.subject ]

abbrev pub get_username : {R : Type 0} → Request R → Option String
get_username req = elim (req.claims) [ none ↦ none | some c ↦ some c.username ]

abbrev first_part : List String → String
first_part [] = ""
first_part (p ∷ ps) = p

unfoldable pub user_key : {R : Type 0} → Request R → String
user_key req = elim (get_user_id req) [ none ↦ "" | some id ↦ id ]

-- ChainMiddleware: the first is the outermost.
unfoldable pub chain_middleware {ℓ} : {H : Type ℓ} → H → List (H → H) → H
chain_middleware h [] = h
chain_middleware h (m ∷ ms) = m (chain_middleware h ms)

module _ (lib : Libraries) where
  open lib use {parse_with_claims, allow, split_host_port, trim_space}

  unfoldable pub verify_jwt : String → String → Option UserClaims
  verify_jwt token secret = elim (parse_with_claims token secret ("HS256" ∷ [])) [
    | none ↦ none
    | some (claims, valid) ↦ if valid then some claims else none
  ]

  unfoldable pub ip_key : {R : Type 0} → Request R → String
  ip_key req =
      let xff = trim_space req.forwarded_for in
      if str_eq xff ""
      then elim (split_host_port req.remote_addr) [ none ↦ req.remote_addr | some host ↦ host ]
      else trim_space (first_part (split b',' xff))

  -- `Allow` of the limiter in Redis.
  unfoldable pub limiter_allows : String → Option Bool
  limiter_allows key = elim (allow key) [ none ↦ none | some n ↦ some (leb 1 n) ]

module _ (lib : Libraries) {R S A : Type 0} where
  unfoldable pub bearer_auth : String → Handler R S A → Handler R S A
  bearer_auth secret next req s =
      let token = extract_token req.authorization in
      if str_eq token ""
      then (s, problem status_unauthorized)
      else elim (verify_jwt lib token secret) [
        | none ↦ (s, problem status_unauthorized)
        | some claims ↦ next (record req { claims = some claims }) s
      ]

  unfoldable pub rate_limit : (Request R → String) → Handler R S A → Handler R S A
  rate_limit key_of next req s =
      let key = key_of req in
      if str_eq key "" then next req s else elim (limiter_allows lib key) [
        | none ↦ next req s
        | some allowed ↦ if allowed then next req s else (s, problem status_too_many_requests)
      ]

unfoldable pub internal_auth : {R S A : Type 0} → String → Handler R S A → Handler R S A
internal_auth secret next req s =
    if str_eq req.internal_secret secret then next req s else (s, problem status_unauthorized)
