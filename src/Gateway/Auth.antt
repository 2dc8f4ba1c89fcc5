-- ===== src/Gateway/Auth.antt =====
-- services/gateway/app/auth.py and the revocation of sessions in routes/control.py: who is behind a
-- request. A token whose signature was verified is an argument: shared/mezna_shared/session.py promises
-- a subject and a time of issue.
pub mod Revocation
use Prim.Native.String.{◌++◌}
use messiah_fx_prod.Prelude.{
  String, Bool, true, false, not, ◌&&◌, Option, none, some, ◌=ˢ◌, if◌then◌else◌,
}
use messiah_fx_prod.Prelude.Int.{ℤ}
use messiah_fx_prod.Prelude.Text.{strip}
use messiah_fx_prod.Prelude.ParseInt.{parse_int, show_int}
use messiah_fx_prod.Numbers.{Floats}
use messiah_fx_prod.Payload.{text, no_fields, field}
use messiah_fx_prod.Redis.{Redis, Exec, pure, or_raise, send, set, audit, ◌>>=◌, ◌>>◌}

pub record Identity : Type 0 where
  pub user : String
  pub role : Option String
  pub verified : Bool

pub record Token (fl : Floats) : Type 0 where
  pub sub : String
  pub iat : fl.F
  pub token_role : String

abbrev pub session_revoke_all : String
session_revoke_all = "session:revoke:all"

abbrev pub session_revoke_user : String → String
session_revoke_user sub = "session:revoke:user:" ++ sub

-- `epoch and iat < int(epoch)`, `none` where `int` raises
abbrev pub before_epoch : (fl : Floats) → fl.F → Option String → Option Bool
before_epoch fl iat none = some false
before_epoch fl iat (some epoch) =
    if epoch =ˢ ""
    then some false
    else (elim (parse_int epoch) [ none ↦ none | some n ↦ some (fl.lt iat (fl.of_int n)) ])

-- An epoch that is no number revokes nothing, and the epoch of the user is not read then.
abbrev pub either_epoch : Option Bool → Option Bool → Bool
either_epoch (some true) user = true
either_epoch (some false) (some b) = b
either_epoch (some false) none = false
either_epoch none user = false

abbrev header_user : Option String → String
header_user none = "dashboard"
header_user (some user) = if strip user =ˢ "" then "dashboard" else strip user

-- The headers x-mezna-user and x-mezna-role.
pub record Headers : Type 0 where
  pub x_user : Option String
  pub x_role : Option String

abbrev pub unverified : Headers → Identity
unverified headers = record {
  user = header_user headers.x_user;
  role = headers.x_role;
  verified = false;
}

module _ {fl : Floats} where
  abbrev pub verified_as : Token fl → Identity
  verified_as token = record {
    user = if token.sub =ˢ "" then "unknown" else token.sub;
    role = some token.token_role;
    verified = true;
  }

  unfoldable pub is_revoked : (r : Redis fl) → Token fl → r.S → Bool
  is_revoked r token s =
      either_epoch (before_epoch fl token.iat (r.text_at session_revoke_all s))
        (before_epoch fl token.iat (r.text_at (session_revoke_user token.sub) s))

  unfoldable pub resolve_identity : (r : Redis fl) → Headers → Option (Token fl) → r.S → Identity
  resolve_identity r headers none s = unverified headers
  resolve_identity r headers (some token) s =
      if is_revoked r token s then unverified headers else verified_as token

-- Both of require_admin.
abbrev pub is_admin : Identity → Bool
is_admin identity =
    identity.verified && (elim identity.role [ none ↦ false | some role ↦ role =ˢ "admin" ])

-- The key of a scope, and what the audit calls it; `none` is the 400 for a user that is missing.
abbrev pub user_target : Option String → Option (String × String)
user_target none = none
user_target (some user) =
    if user =ˢ "" then none else some (session_revoke_user user, "user:" ++ user)

abbrev pub target_of : String → Option String → Option (String × String)
target_of scope user =
    if scope =ˢ "user" then user_target user else some (session_revoke_all, "all")

module _ {fl : Floats} {r : Redis fl} where
  abbrev pub require_admin : Identity → Exec r Unit
  require_admin identity = if is_admin identity then pure tt else or_raise none

  unfoldable pub revoke_sessions : Identity → ℤ → String → Option String → Exec r Unit
  revoke_sessions identity now scope user = do
    require_admin identity
    (key, target) ← or_raise (target_of scope user)
    send (set key (show_int now))
    send (
        audit "sessions.revoked"
          (field "target" (text target) (field "by" (text identity.user) no_fields)))
