-- ===== src/ParamGovernance.antt =====
-- shared/mezna_shared/param_governance.py: versions and differences of a strategy's parameters. A
-- value is a parameter of the model with its test of equality; JSON and SHA-256 are arguments.
pub mod Changes
use messiah_fx_prod.Prelude.{
  String, Bool, true, false, not, ◌+◌, Option, none, some, List, [], ◌∷◌, ◌=ˢ◌, if◌then◌else◌,
}
use messiah_fx_prod.Prelude.Int.{ℤ, pos, ◌+ℤ◌}
use messiah_fx_prod.Prelude.Dict.{Dict, lookup}

-- Values that can be told apart.
pub record Values : Type 1 where
  pub V : Type 0
  pub same : V → V → Bool

pub record Change (vs : Values) : Type 0 where
  pub old : vs.V
  pub new : vs.V

pub record Diff (vs : Values) : Type 0 where
  pub added : Dict vs.V
  pub removed : Dict vs.V
  pub changed : Dict (Change vs)

module _ {V : Type 0} where
  abbrev pub keep_if : Option V → String → V → Dict V → Dict V
  keep_if none k v d = (k, v) ∷ d
  keep_if (some w) k v d = d

  -- `{k: new[k] for k in new if k not in old}`
  unfoldable pub only_in : Dict V → Dict V → Dict V
  only_in old [] = []
  only_in old ((k, v) ∷ new) = keep_if (lookup k old) k v (only_in old new)

module _ (vs : Values) where
  open vs use {V, same}

  abbrev pub change_if : Option V → String → V → Dict (Change vs) → Dict (Change vs)
  change_if none k v d = d
  change_if (some w) k v d = if same w v then d else (k, record { old = w; new = v }) ∷ d

  -- `{k: {"old": old[k], "new": new[k]} for k in new if k in old and old[k] != new[k]}`
  unfoldable pub changed_in : Dict V → Dict V → Dict (Change vs)
  changed_in old [] = []
  changed_in old ((k, v) ∷ new) = change_if (lookup k old) k v (changed_in old new)

  unfoldable pub diff_params : Dict V → Dict V → Diff vs
  diff_params old new = record {
    added = only_in old new;
    removed = only_in new old;
    changed = changed_in old new;
  }

  -- `param_hash`: the digest of the canonical JSON
  abbrev pub param_hash : (String → String) → (Dict V → String) → Dict V → String
  param_hash sha256_16 canonical_json params = sha256_16 (canonical_json params)

  abbrev pub has_drift : (String → String) → (Dict V → String) → Dict V → Dict V → Bool
  has_drift sha256_16 canonical_json a b =
      not (param_hash sha256_16 canonical_json a =ˢ param_hash sha256_16 canonical_json b)

-- `next_version`: one more than the version, or 1 where `int` raises
abbrev pub next_version : Option ℤ → ℤ
next_version none = pos 1
next_version (some n) = n +ℤ pos 1
