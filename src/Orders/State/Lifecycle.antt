-- ===== src/Orders/State/Lifecycle.antt =====
-- What the table of order_state.py promises: terminal states are final, and no order goes back.
use mathlib.Core.Path.{subst}
use messiah_fx_prod.Prelude.{
  ℕ, ◌≤◌, ◌<◌, String, true, false, ◌≡◌, refl, Option, none, some, List, [], ◌⊎◌, inl, inr, arith,
  sym, ◌∙◌, Bool-cases, ◌=ˢ◌, if◌then◌else◌,
}
use messiah_fx_prod.Prelude.Dict.{
  contains, All-contains, AllEntries, AllEntries-lookup, AllEntries-lookup_or,
}
use messiah_fx_prod.Prelude.Text.{strip, lower}
use messiah_fx_prod.Orders.State.{
  pending, opened, partially_filled, all_states, aliases, from_pending, from_opened,
  from_partially_filled, terminal_states, valid_transitions, canonical, normalize_status,
  is_terminal, is_valid_transition,
}

-- A terminal state has no move out of it.
pub terminal_is_final : (s t : String) → is_terminal s ≡ true → is_valid_transition s t ≡ false
unfolding is_terminal is_valid_transition
terminal_is_final s t =
    All-contains (λ x. is_valid_transition x t ≡ false) terminal_states s
      (refl, (refl, (refl, (refl, (refl, tt)))))

-- How far along its life an order is.
unfoldable pub rank : String → ℕ
rank s =
    if s =ˢ pending then 0 else if s =ˢ opened then 1 else if s =ˢ partially_filled then 2 else 3

abbrev Advances : String → String → Type 0
Advances s t = (rank s < rank t) ⊎ ((s ≡ partially_filled) × (t ≡ partially_filled))

abbrev IsAdvancing : String → String → List String → Type 0
IsAdvancing t s targets = contains t targets ≡ true → Advances s t

table_advances : (t : String) → AllEntries (IsAdvancing t) valid_transitions
unfolding rank
table_advances t = (
  All-contains (Advances pending) from_pending t (omega arith),
  (
    All-contains (Advances opened) from_opened t (omega arith),
    (
      All-contains (Advances partially_filled) from_partially_filled t
          (inr (refl, refl), omega arith),
      tt,
    ),
  ),
)

-- A valid move goes forward, or repeats a partial fill.
transition-Advances : (s t : String) → is_valid_transition s t ≡ true → Advances s t
unfolding is_valid_transition
transition-Advances s t =
    AllEntries-lookup_or (IsAdvancing t) valid_transitions s [] (table_advances t) (λ h. cc)

-- The states that an order goes through.
pub data Runs : String → String → Type 0 where
  here : {s : String} → Runs s s
  move : {s t u : String} → is_valid_transition s t ≡ true → Runs t u → Runs s u

rank-Runs : {s t : String} → Runs s t → rank s ≤ rank t
rank-Runs here = omega arith
rank-Runs (move {s} {t} v r) = elim (transition-Advances s t v) [
  | inl forward ↦ omega (arith, rank-Runs r)
  | inr repeat ↦ rw repeat.0 (rw (← repeat.1) (rank-Runs r))
]

-- An order that could come back to an earlier state never left it.
pub no_cycle : {s t : String} → Runs s t → Runs t s → s ≡ t
no_cycle here back = refl
no_cycle (move {s} {t} {u} v r) back = elim (transition-Advances s t v) [
  | inl forward ↦ absurd (omega (arith, rank-Runs r, rank-Runs back))
  | inr repeat ↦
      let e : s ≡ t = repeat.0 ∙ sym repeat.1 in e ∙ no_cycle r (subst (λ x. Runs u x) e back)
]

canonical_known : (x s : String) → canonical x ≡ some s → contains s all_states ≡ true
unfolding canonical
canonical_known x s h = elim (Bool-cases (contains x all_states)) [
  | inl known ↦
      let e : some x ≡ some s = rw known at h in
      let same : x ≡ s = cc e in subst (λ y. contains y all_states ≡ true) same known
  | inr other ↦
      AllEntries-lookup (λ _ y. contains y all_states ≡ true) aliases x
        (refl, (refl, (refl, (refl, (refl, (refl, (refl, tt))))))) (rw other at h)
]

normalize_status_fixed :
    (s : String) → contains s all_states ≡ true → normalize_status (some s) ≡ some s
unfolding normalize_status
normalize_status_fixed s =
    All-contains (λ x. normalize_status (some x) ≡ some x) all_states s
      (refl, (refl, (refl, (refl, (refl, (refl, (refl, (refl, tt))))))))

-- What `normalize_status` answers, if it answers, is one of the eight canonical states, and
-- normalising it again answers the same.
pub normalize_status_idem :
    (status : Option String) (s : String)
    → normalize_status status ≡ some s
    → (contains s all_states ≡ true) × (normalize_status (some s) ≡ some s)
unfolding normalize_status
normalize_status_idem none s h = cc
normalize_status_idem (some status) s h = elim (Bool-cases (status =ˢ "")) [
  | inl empty ↦ cc (rw empty at h)
  | inr text ↦
      let known : contains s all_states ≡ true =
        canonical_known (lower (strip status)) s (rw text at h) in
      (known, normalize_status_fixed s known)
]
