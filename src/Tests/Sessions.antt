-- ===== src/Tests/Sessions.antt =====
-- Runs of the revocation of sessions, and the theorems at them.
use messiah_fx_prod.Prelude.{true, ◌≡◌, refl, none, some, []}
use messiah_fx_prod.Prelude.Int.{pos}
use messiah_fx_prod.Numbers.Laws.{whole}
use messiah_fx_prod.Redis.{World}
use messiah_fx_prod.Redis.Memory.{memory, memory-IsServer}
use messiah_fx_prod.Gateway.Auth.{
  Identity, Token, Headers, resolve_identity, revoke_sessions, unverified,
}
use messiah_fx_prod.Gateway.Auth.Revocation.{resolve_identity-revoke_all}

abbrev admin : Identity
admin = record { user = "ada"; role = some "admin"; verified = true }

abbrev token : Token whole
token = record { sub = "bob"; iat = pos 100; token_role = "operator" }

abbrev headers : Headers
headers = record { x_user = some "bob"; x_role = none }

abbrev world : World (memory whole)
world = record {
  server = record { texts = λ k. none; lists = λ k. []; hashes = λ k. [] };
  sent = [];
}

resolve_identity-revoke_all_example :
    resolve_identity
      (memory whole)
      headers
      (some token)
      (revoke_sessions admin (pos 200) "all" none world).1.server
    ≡ unverified headers
resolve_identity-revoke_all_example =
    resolve_identity-revoke_all (memory-IsServer whole) admin 200 "all" none headers token world
      refl refl refl
