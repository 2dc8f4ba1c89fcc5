-- ===== src/Executor/Outcome/Choice.antt =====
-- services/executor/app/consumer.py, _update_rotation_preferred: which strategy is preferred after one
-- was degraded.
use mathlib.Core.Bool.{Bool, false≢true, not, ◌&&◌}
use Prim.Native.String.{◌++◌ as ◌++ˢ◌}
use messiah_fx_prod.Prelude.{
  String, ◌=ˢ◌, true, false, ◌≡◌, refl, ap, ◌∙◌, some, List, [], ◌∷◌, ◌++◌, ◌⊎◌, inl, inr,
  Bool-cases,
}
use messiah_fx_prod.Prelude.Dict.{All, lookup_or}
use messiah_fx_prod.Numbers.{Floats}
use messiah_fx_prod.Payload.{text, object, no_fields, field}
use messiah_fx_prod.Redis.{Redis, World, Exec, Command, set_ex, rpush}
use messiah_fx_prod.Regimes.{preferred_for_regime}
use messiah_fx_prod.Executor.Outcome.Rotation.{
  is_candidate, prefer_first, update_rotation_preferred,
}

three_parts :
    (a b c : Bool) → (not a && not b && c) ≡ true → (a ≡ false) × ((b ≡ false) × (c ≡ true))
three_parts false false c h = (refl, (refl, h))
three_parts false true c h = absurd (false≢true h)
three_parts true b c h = absurd (false≢true h)

one_part : (a b c : Bool) → (not a && not b && c) ≡ false → (a ≡ true) ⊎ (b ≡ true) ⊎ (c ≡ false)
one_part true b c h = inl refl
one_part false true c h = inr (inl refl)
one_part false false c h = inr (inr h)

-- The strategy failed itself, or is degraded, or is not enabled.
abbrev pub IsUnfit : {fl : Floats} (r : Redis fl) → String → String → r.S → Type 0
IsUnfit r failed c s =
    ((c =ˢ failed) ≡ true)
    ⊎ (r.exists ("strategy:degraded:" ++ˢ c) s ≡ true)
    ⊎ ((lookup_or "enabled" "0" (r.hash_at ("strategy:state:" ++ˢ c) s) =ˢ "1") ≡ false)

-- The two commands that prefer a strategy for four hours and announce it.
abbrev pub announce : {fl : Floats} → String → String → String → String → Command fl × Command fl
announce now failed chosen regime = (
  set_ex "strategy:rotation:preferred" chosen 14400,
  rpush "notifications:queue" (
      object (
        field "event" (text "strategy.rotation.triggered") (
          field "timestamp" (text now) (
            field "failed_strategy" (text failed)
              (field "rotating_to" (text chosen) (field "regime" (text regime) no_fields)))))),
)

module _ {fl : Floats} (r : Redis fl) (now failed regime : String) (candidates : List String)
    (w : World r) where
  -- None of the strategies can replace the failed one, and nothing was sent.
  pub record IsNoChoice (m : Exec r Unit) : Type 0 where
    pub none_fits : All (λ c. IsUnfit r failed c w.server) candidates
    pub unchanged : m w ≡ (some tt, w)

  -- The first of the strategies that can replace the failed one is preferred.
  pub record IsChoice (m : Exec r Unit) : Type 0 where
    pub chosen : String
    pub before : List String
    pub later : List String
    pub parts : candidates ≡ before ++ chosen ∷ later
    pub none_before : All (λ c. IsUnfit r failed c w.server) before
    pub another : (chosen =ˢ failed) ≡ false
    pub healthy : r.exists ("strategy:degraded:" ++ˢ chosen) w.server ≡ false
    pub enabled :
        (lookup_or "enabled" "0" (r.hash_at ("strategy:state:" ++ˢ chosen) w.server) =ˢ "1") ≡ true
    -- The commands take effect in this order, and nothing else is sent.
    pub preferred : m w ≡ (
      some tt,
      record {
        server =
            r.run
              (announce now failed chosen regime).1
              (r.run (announce now failed chosen regime).0 w.server);
        sent =
            (w.sent ++ (announce now failed chosen regime).0 ∷ [])
            ++ (announce now failed chosen regime).1 ∷ [];
      },
    )

abbrev pub IsRotation :
    {fl : Floats} (r : Redis fl)
    → String
    → String
    → String
    → List String
    → World r
    → Exec r Unit
    → Type 0
IsRotation r now failed regime candidates w m =
    IsNoChoice r now failed regime candidates w m ⊎ IsChoice r now failed regime candidates w m

module _ {fl : Floats} (r : Redis fl) (now failed regime : String) where
  skip :
      (c : String) (candidates : List String) (w : World r) (m n : Exec r Unit)
      → m w ≡ n w
      → is_candidate r failed c w.server ≡ false
      → IsRotation r now failed regime candidates w n
      → IsRotation r now failed regime (c ∷ candidates) w m
  skip c candidates w m n same unfit (inl no_choice) = inl (record {
    none_fits = (one_part _ _ _ unfit, no_choice.none_fits);
    unchanged = same ∙ no_choice.unchanged;
  })
  skip c candidates w m n same unfit (inr choice) = inr (record {
    chosen = choice.chosen;
    before = c ∷ choice.before;
    later = choice.later;
    parts = rw choice.parts refl;
    none_before = (one_part _ _ _ unfit, choice.none_before);
    another = choice.another;
    healthy = choice.healthy;
    enabled = choice.enabled;
    preferred = same ∙ choice.preferred;
  })

  prefer_first-IsRotation :
      (candidates : List String) (w : World r)
      → IsRotation r now failed regime candidates w (prefer_first now failed regime candidates)
  unfolding prefer_first
  prefer_first-IsRotation [] w = inl (record { none_fits = tt; unchanged = refl })
  prefer_first-IsRotation (c ∷ candidates) w =
      elim (Bool-cases (is_candidate r failed c w.server)) [
        | inl fit ↦ inr (record {
          chosen = c;
          before = [];
          later = candidates;
          parts = refl;
          none_before = tt;
          another = (three_parts _ _ _ fit).0;
          healthy = (three_parts _ _ _ fit).1.0;
          enabled = (three_parts _ _ _ fit).1.1;
          preferred = rw fit refl;
        })
        | inr unfit ↦
            skip c candidates w _ (prefer_first now failed regime candidates) (rw unfit refl) unfit
              (prefer_first-IsRotation candidates w)
      ]

  -- The first strategy that the regime prefers, that is not the failed one, not degraded and enabled,
  -- is stored as the preferred one for four hours and announced on notifications:queue, and nothing else is
  -- sent; if there is none, nothing is sent.
  pub update_rotation_preferred-IsRotation :
      (w : World r)
      → IsRotation r now failed regime
          (preferred_for_regime regime)
          w
          (update_rotation_preferred now failed regime)
  unfolding update_rotation_preferred
  update_rotation_preferred-IsRotation w = prefer_first-IsRotation (preferred_for_regime regime) w

  returns-Choice :
      (m : Exec r Unit) (candidates : List String) (w : World r)
      → IsRotation r now failed regime candidates w m
      → (m w).0 ≡ some tt
  returns-Choice m candidates w (inl no_choice) = ap (λ p. p.0) no_choice.unchanged
  returns-Choice m candidates w (inr choice) = ap (λ p. p.0) choice.preferred

  pub update_returns : (w : World r) → (update_rotation_preferred now failed regime w).0 ≡ some tt
  update_returns w =
      returns-Choice (update_rotation_preferred now failed regime) (preferred_for_regime regime) w
        (update_rotation_preferred-IsRotation w)
