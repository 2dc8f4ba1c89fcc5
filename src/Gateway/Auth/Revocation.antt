-- ===== src/Gateway/Auth/Revocation.antt =====
-- services/gateway/app/auth.py and routes/control.py: a revoked session is not let in.
use Prim.Native.String.{◌++◌}
use messiah_fx_prod.Prelude.{
  ℕ, String, Bool, true, false, ◌≡◌, refl, sym, ◌∙◌, inl, inr, Bool-cases, Option, none, some, ◌=ˢ◌,
  eq_iff,
}
use messiah_fx_prod.Prelude.Int.{pos}
use messiah_fx_prod.Prelude.ParseInt.{parse_int, show_int}
use messiah_fx_prod.Prelude.ParseInt.Digits.{parse-show_int}
use messiah_fx_prod.Prelude.Text.Affixes.{prefix_ne_sym}
use messiah_fx_prod.Numbers.{Floats}
use messiah_fx_prod.Redis.{Redis, IsServer, World, set, audit}
use messiah_fx_prod.Gateway.Auth.{
  Identity, Token, Headers, session_revoke_all, session_revoke_user, before_epoch, either_epoch,
  is_revoked, resolve_identity, is_admin, target_of, revoke_sessions, unverified,
}

show_int_ne : (n : ℕ) → (show_int (pos n) =ˢ "") ≡ false
unfolding parse_int
show_int_ne n = elim (Bool-cases (show_int (pos n) =ˢ "")) [
  | inr other ↦ other
  | inl empty ↦
      let none_read : parse_int (show_int (pos n)) ≡ none = rw ((eq_iff _ _).0 empty) refl in
      let e : none ≡ some (pos n) = sym none_read ∙ parse-show_int n in absurd (cc e)
]

either_true : (b : Bool) → either_epoch (some b) (some true) ≡ true
either_true true = refl
either_true false = refl

module _ {fl : Floats} {r : Redis fl} (laws : IsServer r) where
  -- The epoch that was written is read back.
  written_epoch :
      (identity : Identity) (n : ℕ) (scope : String) (user : Option String) (key target : String)
      (w : World r)
      → is_admin identity ≡ true
      → target_of scope user ≡ some (key, target)
      → r.text_at key (revoke_sessions {r = r} identity (pos n) scope user w).1.server
        ≡ some (show_int (pos n))
  unfolding revoke_sessions
  written_epoch identity n scope user key target w admin e =
      let same : (key =ˢ key) ≡ true = (eq_iff _ _).1 refl in
      rw (admin, e)
        (laws.text-run (audit _ _) key _ refl
          ∙ (laws.text-run (set key (show_int (pos n))) key w.server refl ∙ rw same refl))

  -- Another key is not.
  untouched :
      (identity : Identity) (n : ℕ) (scope : String) (user : Option String)
      (key target other : String) (w : World r)
      → is_admin identity ≡ true
      → target_of scope user ≡ some (key, target)
      → (other =ˢ key) ≡ false
      → r.text_at other (revoke_sessions {r = r} identity (pos n) scope user w).1.server
        ≡ r.text_at other w.server
  unfolding revoke_sessions
  untouched identity n scope user key target other w admin e differ =
      rw (admin, e)
        (laws.text-run (audit _ _) other _ refl
          ∙ (laws.text-run (set key (show_int (pos n))) other w.server refl ∙ rw differ refl))

  before_written :
      (iat : fl.F) (n : ℕ) (o : Option String)
      → o ≡ some (show_int (pos n))
      → fl.lt iat (fl.of_int (pos n)) ≡ true
      → before_epoch fl iat o ≡ some true
  before_written iat n o e older = rw (e, show_int_ne n, parse-show_int n, older) refl

  -- On a server that keeps the documented effect of its commands: once an admin has revoked all
  -- sessions, a token that was issued before is not accepted, and its bearer is unverified.
  pub resolve_identity-revoke_all :
      (identity : Identity) (n : ℕ) (scope : String) (user : Option String) (headers : Headers)
      (token : Token fl) (w : World r)
      → is_admin identity ≡ true
      → (scope =ˢ "user") ≡ false
      → fl.lt token.iat (fl.of_int (pos n)) ≡ true
      → resolve_identity r headers
          (some token)
          (revoke_sessions {r = r} identity (pos n) scope user w).1.server
        ≡ unverified headers
  unfolding resolve_identity is_revoked
  resolve_identity-revoke_all identity n scope user headers token w admin other older =
      let aims : target_of scope user ≡ some (session_revoke_all, "all") = rw other refl in
      let epoch = written_epoch identity n scope user session_revoke_all "all" w admin aims in
      rw (before_written token.iat n _ epoch older) refl

  -- On a server that keeps the documented effect of its commands: once an admin has revoked the
  -- sessions of one user, a token of that user that was issued before is not accepted, where the epoch
  -- of all sessions is missing or can be read.
  pub resolve_identity-revoke_user :
      (identity : Identity) (n : ℕ) (headers : Headers) (token : Token fl) (readable : Bool)
      (w : World r)
      → is_admin identity ≡ true
      → (token.sub =ˢ "") ≡ false
      → fl.lt token.iat (fl.of_int (pos n)) ≡ true
      → before_epoch fl token.iat (r.text_at session_revoke_all w.server) ≡ some readable
      → resolve_identity r headers
          (some token)
          (revoke_sessions {r = r} identity (pos n) "user" (some token.sub) w).1.server
        ≡ unverified headers
  unfolding resolve_identity is_revoked
  resolve_identity-revoke_user identity n headers token readable w admin named older readable_all =
      let key = session_revoke_user token.sub in
      let aims : target_of "user" (some token.sub) ≡ some (key, "user:" ++ token.sub) =
        rw named refl in
      let epoch = written_epoch identity n "user" (some token.sub) key _ w admin aims in
      let kept =
        untouched identity n "user" (some token.sub) key _ session_revoke_all w admin aims
          (prefix_ne_sym "session:revoke:user:" token.sub session_revoke_all refl) in
      rw (kept, readable_all, before_written token.iat n _ epoch older)
        (rw (either_true readable) refl)
