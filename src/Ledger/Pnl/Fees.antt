-- ===== src/Ledger/Pnl/Fees.antt =====
-- A fill never raises on a sound position, and leaves a sound position: the carried fees and the
-- entry price are not negative.
use messiah_fx_prod.Prelude.{
  String, true, ◌≡◌, Option, none, some, Bool-cases, inl, inr, or_false_left, or_false_right, ◌||◌,
}
use messiah_fx_prod.Numbers.{Floats, num_zero, max_of, min_of, or_zero}
use messiah_fx_prod.Numbers.Laws.{
  IsOrdered, divide_of_pos, min_le_left, min_le_right, le_max_right, pos_of_past,
}
use messiah_fx_prod.Ledger.Pnl.{
  PositionState, FillOutcome, eps, side_sign, cur_sign, open_or_add, entry_fee_share, settle,
  close_or_flip, apply_fill,
}

module _ (fl : Floats) (laws : IsOrdered fl) where
  open fl use {F, lit, add, sub, mul, div, neg, abs, lt, le, eq}

  pub record IsSound (s : PositionState fl) : Type 0 where
    pub price : le (num_zero fl) s.avg_price ≡ true
    pub fees : le (num_zero fl) s.open_fees ≡ true

  abbrev pub Sound : Option (FillOutcome fl) → Type 0
  Sound none = ⊥
  Sound (some o) = IsSound o.position × (o.flipped ≡ true → o.closed ≡ true)

  module _ (s : PositionState fl) (d a p f : F) (sound : IsSound s) (size : lt (eps fl) a ≡ true)
      (price : le (num_zero fl) p ≡ true) (fee : le (num_zero fl) f ≡ true) where
    size_pos : lt (num_zero fl) a ≡ true
    size_pos = pos_of_past fl laws 1 9 a size

    size_nonneg : le (num_zero fl) a ≡ true
    size_nonneg = laws.le_of_lt _ _ size_pos

    prior_nonneg : le (num_zero fl) (abs s.net_qty) ≡ true
    prior_nonneg = laws.abs_nonneg s.net_qty

    total_pos : lt (num_zero fl) (add (abs s.net_qty) a) ≡ true
    total_pos = laws.lt_of_lt_le _ _ _ size_pos (laws.le-add_left _ _ prior_nonneg)

    open_or_add-Sound : Sound (open_or_add fl s d a p f)
    unfolding open_or_add
    open_or_add-Sound = rw (divide_of_pos fl laws _ _ total_pos) (
      record {
        price =
            laws.div_nonneg _ _
              (laws.add_nonneg _ _ (laws.mul_nonneg _ _ sound.price prior_nonneg)
                (laws.mul_nonneg _ _ price size_nonneg))
              total_pos;
        fees = laws.add_nonneg _ _ sound.fees fee;
      },
      λ h. h,
    )

    -- The closing part of the fee is at most the fee.
    close_fee_le : (c : F) → le c a ≡ true → le (mul f (div c a)) f ≡ true
    close_fee_le c h = laws.mul_le _ _ fee (laws.div_le_one _ _ size_pos h)

    settle-Sound :
        (prior c close_fee portion realized : F)
        → le close_fee f ≡ true
        → le portion s.open_fees ≡ true
        → Sound (settle fl s d a p f prior c close_fee portion realized)
    unfolding settle
    settle-Sound prior c close_fee portion realized hf hp =
        elim (Bool-cases (lt (eps fl) (sub a c))) [
          | inl flip ↦ rw flip (record { price = price; fees = laws.sub_nonneg _ _ hf }, λ h. h)
          | inr whole_fill ↦ rw whole_fill (elim (Bool-cases (le (sub prior c) (eps fl))) [
            | inl full ↦ rw full (record { price = laws.le_refl _; fees = laws.le_refl _ }, λ h. cc)
            | inr part ↦
                rw part (record { price = sound.price; fees = laws.sub_nonneg _ _ hp }, λ h. cc)
          ])
        ]

    entry_fee_share_le :
        (c prior : F)
        → le c prior ≡ true
        → (portion : F) × (entry_fee_share fl s.open_fees c prior ≡ some portion)
          × (le portion s.open_fees ≡ true)
    entry_fee_share_le c prior h = elim (Bool-cases (lt (eps fl) prior)) [
      | inl held ↦
          let pos : lt (num_zero fl) prior ≡ true = pos_of_past fl laws 1 9 prior held in
          (
            mul s.open_fees (div c prior),
            rw held (rw (divide_of_pos fl laws c prior pos)),
            laws.mul_le _ _ sound.fees (laws.div_le_one _ _ pos h),
          )
      | inr empty ↦ (num_zero fl, rw empty, sound.fees)
    ]

    close_or_flip-Sound : Sound (close_or_flip fl s d a p f)
    unfolding close_or_flip
    close_or_flip-Sound =
        let prior : F = abs s.net_qty in
        let c : F = min_of fl a prior in
        let (portion, e, le_fees) = entry_fee_share_le c prior (min_le_right fl laws a prior) in
        rw (divide_of_pos fl laws c a size_pos) (
          rw e (
            settle-Sound prior c (mul f (div c a)) portion _
              (close_fee_le c (min_le_left fl laws a prior)) le_fees))

  -- For floats that meet `IsOrdered`: on a sound position, with any side, quantity, price and fee, `apply_fill` raises no division by
  -- zero, and the position it leaves is sound: neither its entry price nor its carried fees are
  -- negative. A fill that flips the position counts as closing it.
  pub apply_fill-Sound :
      (s : PositionState fl) (side : String) (qty p fee : F)
      → IsSound s
      → Sound (apply_fill fl s side qty p fee)
  unfolding apply_fill
  apply_fill-Sound s side qty p fee sound =
      let a : F = abs qty in
      let f : F = max_of fl (or_zero fl fee) (num_zero fl) in
      let cur : F = cur_sign fl s.net_qty in
      let d : F = side_sign fl side in
      elim (Bool-cases (le a (eps fl) || le p (num_zero fl))) [
        | inl nothing ↦ rw nothing (sound, λ h. h)
        | inr usable ↦
            let size : lt (eps fl) a ≡ true = laws.lt_of_not_le _ _ (or_false_left _ _ usable) in
            let price : le (num_zero fl) p ≡ true =
              laws.le_of_lt _ _ (laws.lt_of_not_le _ _ (or_false_right _ _ usable)) in
            let fee_nonneg : le (num_zero fl) f ≡ true = le_max_right fl laws _ _ in
            rw usable (elim (Bool-cases (eq cur (num_zero fl) || eq cur d)) [
              | inl same ↦ rw same (open_or_add-Sound s d a p f sound size price fee_nonneg)
              | inr against ↦ rw against (close_or_flip-Sound s d a p f sound size price fee_nonneg)
            ])
      ]
