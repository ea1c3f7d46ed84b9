-- ===== src/Auth.antt =====
-- Authentication and the admin principal of src/aegis_fabric/auth.py. `jwt.decode` and the fetch of the
-- keys, `str.split` on a group path and SQL's `lower` are parameters. Times are whole seconds; a text
-- claim or header that is missing is the empty text. Capabilities of roles have the schema's types.
pub mod Token
pub mod Principal
pub mod Admin
pub mod Fresh
mod Examples
use aegis_capstone.Common.{
  ◌<>◌, ℕ, zero, suc, ◌+◌, ◌-◌, ◌≤◌, ◌<◌, String, ◌≡◌, refl, sym, ap, ◌∙◌, ◌≢◌, ◌⊎◌, inl, inr, Bool,
  true, false, ◌&&◌, ◌||◌, not, Option, none, some, List, [], ◌∷◌, ◌++◌, map, arith, ◌==◌, eq_iff,
  ltb, leb, eqb, if◌then◌else◌, Bool-cases, Option-cases, or_else, is_some, length, is_empty, keep,
  any, All, contains, ◌*◌,
}
use aegis_capstone.Common.Dict.{lookup}
use aegis_capstone.Json.{Value, scalar, texts, flag, positive_int, text}
use aegis_capstone.Rbac.Assignments.{
  Place, RoleRow, resolve_assignment, Assignment, role_capabilities,
}

pub data HttpError : Type 0 where
  unauthorized forbidden unavailable : String → HttpError

pub data Result (A : Type 0) : Type 0 where
  ok : A → Result A
  err : HttpError → Result A

-- The claims that the code reads.
pub record Claims : Type 0 where
  pub sub : String
  pub email : String
  pub preferred_username : String
  pub email_verified : Bool
  pub groups : List String
  pub iat : Option ℕ

pub record Subject : Type 0 where
  pub sub : String
  pub email : String
  pub tenant_id : String
  pub team_id : String
  pub role : String
  pub token_claims : Claims

pub record Settings : Type 0 where
  pub admin_token : String
  pub allow_group_fallback : Bool
  pub allow_email_binding : Bool
  pub sensitive_action_max_age_minutes : ℕ

-- `jwks(force)` gives keys or raises `httpx.HTTPError`; `jwt.decode` gives claims or raises `JWTError`;
-- `unverified_iat` is `int(claims.get("iat", 0))` of a token that parses, with no check of a signature.
pub record Environment (Keys : Type 0) : Type 0 where
  pub settings : Settings
  pub jwks : Bool → Option Keys
  pub decode : String → Keys → Option Claims
  pub unverified_iat : String → Option ℕ
  pub split : String → List String
  pub lower : String → String
  pub now : ℕ

-- The tables `roles` and `user_assignments`.
pub record Database : Type 0 where
  pub roles : Option (List RoleRow)
  pub assignments : List Assignment

abbrev pub either : String → String → String
either a b = if a == "" then b else a

-- `[p for p in g.split("/") if p]`
abbrev pub parts : (String → List String) → String → List String
parts split g = keep (λ p. not (p == "")) (split g)

abbrev pub nth : ℕ → List String → Option String
nth zero [] = none
nth (suc n) [] = none
nth zero (x ∷ xs) = some x
nth (suc n) (x ∷ xs) = nth n xs

unfoldable pub group_attr : (String → List String) → List String → ℕ → Option String
group_attr split [] idx = none
group_attr split (g ∷ groups) idx =
    if leb 3 (length (parts split g)) then nth idx (parts split g) else group_attr split groups idx

-- The number of a capability.
abbrev pub number_of : Option Value → ℕ
number_of (some (scalar v)) = or_else (positive_int (some v)) 0
number_of _ = 0

abbrev pub flag_of : Option Value → Bool
flag_of (some (scalar (flag b))) = b
flag_of _ = false

abbrev pub text_of : Option Value → String
text_of (some (scalar (text s))) = s
text_of _ = "none"

abbrev pub texts_of : Option Value → List String
texts_of (some (texts xs)) = xs
texts_of _ = []

module _ {Keys : Type 0} (env : Environment Keys) where
  abbrev pub decoded : Option Claims → Result Claims
  decoded none = err (unauthorized "invalid token")
  decoded (some c) = ok c

  abbrev pub with_fresh_keys : String → Option Keys → Result Claims
  with_fresh_keys token none = err (unavailable "identity provider unreachable")
  with_fresh_keys token (some k) = decoded (env.decode token k)

  -- The claims under the cached keys, or else under keys that are fetched again.
  abbrev pub or_retry : String → Option Claims → Result Claims
  or_retry token none = with_fresh_keys token (env.jwks true)
  or_retry token (some c) = ok c

  abbrev pub with_keys : String → Option Keys → Result Claims
  with_keys token none = err (unavailable "identity provider unreachable")
  with_keys token (some k) = or_retry token (env.decode token k)

  -- The `try` of `validate_token`.
  unfoldable pub authenticate : String → Result Claims
  authenticate token = with_keys token (env.jwks false)

  -- The place from the token's groups.
  unfoldable pub group_place : List String → Place
  unfolding group_attr
  group_place groups = record {
    tenant_id = or_else (group_attr env.split groups 0) "";
    team_id = either (or_else (group_attr env.split groups 1) "") "research";
    role_id = either (or_else (group_attr env.split groups 2) "") "viewer";
  }

  abbrev pub placed : Option Place → Claims → Result Place
  placed (some p) c = ok p
  placed none c =
      if env.settings.allow_group_fallback
      then ok (group_place c.groups)
      else err (forbidden "no tenant/role assignment for this identity")

  -- `session_max_minutes` of the role against the claim `iat`.
  unfoldable pub session_expired : Option ℕ → ℕ → Bool
  session_expired none smm = false
  session_expired (some iat) smm = ltb 0 smm && ltb 0 iat && ltb (iat + smm * 60) env.now

  unfoldable pub subject_at : Database → Claims → Place → Result Subject
  unfolding session_expired
  subject_at db c p =
      if p.tenant_id == ""
      then err (forbidden "tenant assignment missing")
      else if session_expired c.iat (
          number_of
            (lookup "session_max_minutes" (role_capabilities db.roles p.tenant_id p.role_id)))
      then err (unauthorized "session expired (exceeds session_max_minutes)")
      else ok (record {
        sub = c.sub;
        email = either (either c.email c.preferred_username) c.sub;
        tenant_id = p.tenant_id;
        team_id = p.team_id;
        role = p.role_id;
        token_claims = c;
      })

  abbrev pub subject_of : Database → Claims → Result Place → Result Subject
  subject_of db c (err e) = err e
  subject_of db c (ok p) = subject_at db c p

  -- The binding of an email stays also when the request is refused afterwards.
  unfoldable pub authorize : Database → Claims → Result Subject × Database
  unfolding subject_at
  authorize db c =
      if c.sub == ""
      then (err (unauthorized "token missing subject (sub)"), db)
      else let (p, rows) =
          resolve_assignment env.lower env.settings.allow_email_binding c.sub
            (either c.email c.preferred_username) c.email_verified db.assignments in
        (subject_of db c (placed p c), record db { assignments = rows })

  abbrev pub authorized : Database → Result Claims → Result Subject × Database
  authorized db (err e) = (err e, db)
  authorized db (ok c) = authorize db c

  unfoldable pub validate_token : String → Database → Result Subject × Database
  unfolding authenticate authorize
  validate_token token db = authorized db (authenticate token)
