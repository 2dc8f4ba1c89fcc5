-- ===== src/Bars/Candles.antt =====
-- shared/mezna_shared/bars.py: the bars that the ticks are resampled to.
use messiah_fx_prod.Prelude.{
  ℕ, suc, ◌+◌, ◌≤◌, true, false, ◌≡◌, refl, ◌∙◌, ap, arith, Option, none, some, List, [], ◌∷◌,
  length, String, inl, inr, Bool-cases,
}
use messiah_fx_prod.Prelude.Int.{ℤ, pos, ◌*ℤ◌, leb_ℤ, eqb_ℤ}
use messiah_fx_prod.Numbers.{Floats}
use messiah_fx_prod.Numbers.Laws.{IsOrdered, le_max_left, le_max_right, min_le_left, min_le_right}
use messiah_fx_prod.Payload.{Payload}
use messiah_fx_prod.Bars.{
  Times, Bar, Row, Current, rows_of, insert_row, sort_rows, start, extend, resample, ticks_to_ohlcv,
}

-- The low is at most the prices, the high at least, and a bar has a tick.
pub record IsCandle (fl : Floats) (o h l c : fl.F) (vol : ℕ) : Type 0 where
  pub low_open : fl.le l o ≡ true
  pub low_close : fl.le l c ≡ true
  pub open_high : fl.le o h ≡ true
  pub close_high : fl.le c h ≡ true
  pub has_tick : 1 ≤ vol

-- The time is in a bucket that has a date.
pub record IsDated {fl : Floats} (times : Times fl) (interval_seconds : ℤ) (row : Row fl)
    : Type 0 where
  pub index : ℤ
  pub label : String
  pub is_index : times.floor_div row.at_time interval_seconds ≡ some index
  pub is_label : times.iso (index *ℤ interval_seconds) ≡ some label

abbrev pub AllDated : {fl : Floats} → Times fl → ℤ → List (Row fl) → Type 0
AllDated times n [] = Unit
AllDated times n (row ∷ rows) = IsDated times n row × AllDated times n rows

module _ (fl : Floats) where
  abbrev pub BarIsCandle : Bar fl → Type 0
  BarIsCandle b = IsCandle fl b.open_price b.high b.low b.close_price b.volume

  abbrev pub AllCandles : List (Bar fl) → Type 0
  AllCandles [] = Unit
  AllCandles (b ∷ bars) = BarIsCandle b × AllCandles bars

  -- The number of ticks in all bars.
  abbrev pub ticks_in : List (Bar fl) → ℕ
  ticks_in [] = 0
  ticks_in (b ∷ bars) = b.volume + ticks_in bars

  -- Candles of as many ticks.
  pub record IsSeries (n : ℕ) (answer : Option (List (Bar fl))) : Type 0 where
    pub bars : List (Bar fl)
    pub returns : answer ≡ some bars
    pub candles : AllCandles bars
    pub ticks : ticks_in bars ≡ n

module _ {fl : Floats} where
  AllDated-insert :
      (times : Times fl) (n : ℤ) (row : Row fl) (rows : List (Row fl))
      → IsDated times n row
      → AllDated times n rows
      → AllDated times n (insert_row row rows)
  unfolding insert_row
  AllDated-insert times n row [] d h = (d, tt)
  AllDated-insert times n row (next ∷ rows) d h =
      elim (Bool-cases (fl.lt next.at_time row.at_time)) [
        | inl later ↦ rw later (h.0, AllDated-insert times n row rows d h.1)
        | inr not_later ↦ rw not_later (d, h)
      ]

  AllDated-sort :
      (times : Times fl) (n : ℤ) (rows : List (Row fl))
      → AllDated times n rows
      → AllDated times n (sort_rows rows)
  unfolding sort_rows
  AllDated-sort times n [] h = tt
  AllDated-sort times n (row ∷ rows) h =
      AllDated-insert times n row (sort_rows rows) h.0 (AllDated-sort times n rows h.1)

  length-insert :
      (row : Row fl) (rows : List (Row fl)) → length (insert_row row rows) ≡ suc (length rows)
  unfolding insert_row
  length-insert row [] = refl
  length-insert row (next ∷ rows) = elim (Bool-cases (fl.lt next.at_time row.at_time)) [
    | inl later ↦ rw later (ap suc (length-insert row rows))
    | inr not_later ↦ rw not_later refl
  ]

  length-sort : (rows : List (Row fl)) → length (sort_rows rows) ≡ length rows
  unfolding sort_rows
  length-sort [] = refl
  length-sort (row ∷ rows) = length-insert row (sort_rows rows) ∙ ap suc (length-sort rows)

module _ {fl : Floats} (laws : IsOrdered fl) (times : Times fl) (n : ℤ) where
  -- The bar that the loop is in is a candle, and its bucket has a date.
  record IsGood (b : Current fl) : Type 0 where
    candle : IsCandle fl b.o b.h b.l b.c b.vol
    label : String
    is_label : times.iso b.bucket ≡ some label

  start-IsGood :
      (bucket : ℤ) (label : String) (px : fl.F)
      → times.iso bucket ≡ some label
      → IsGood (start bucket px)
  start-IsGood bucket label px e = record {
    candle = record {
      low_open = laws.le_refl px;
      low_close = laws.le_refl px;
      open_high = laws.le_refl px;
      close_high = laws.le_refl px;
      has_tick = omega arith;
    };
    label = label;
    is_label = e;
  }

  extend-IsGood : (px : fl.F) (b : Current fl) → IsGood b → IsGood (extend px b)
  extend-IsGood px b h = record {
    candle = record {
      low_open = laws.le_trans _ _ _ (min_le_left fl laws b.l px) h.candle.low_open;
      low_close = min_le_right fl laws b.l px;
      open_high = laws.le_trans _ _ _ h.candle.open_high (le_max_left fl laws b.h px);
      close_high = le_max_right fl laws b.h px;
      has_tick = omega arith;
    };
    label = h.label;
    is_label = h.is_label;
  }

  resample-IsSeries :
      (b : Current fl) (rows : List (Row fl))
      → IsGood b
      → AllDated times n rows
      → IsSeries fl (b.vol + length rows) (resample times n (some b) rows)
  unfolding resample
  resample-IsSeries b [] good dated =
      rw good.is_label
        (record { bars = _; returns = refl; candles = (good.candle, tt); ticks = omega arith })
  resample-IsSeries b (row ∷ rows) good dated =
      elim (Bool-cases (eqb_ℤ (dated.0.index *ℤ n) b.bucket)) [
        | inl same ↦
            let rest =
              resample-IsSeries (extend row.price b) rows (extend-IsGood row.price b good)
                dated.1 in
            rw (dated.0.is_index, same, rest.returns)
              (record {
                bars = rest.bars;
                returns = refl;
                candles = rest.candles;
                ticks = omega (arith, rest.ticks);
              })
        | inr other ↦
            let begun =
              start-IsGood (dated.0.index *ℤ n) dated.0.label row.price dated.0.is_label in
            let rest =
              resample-IsSeries (start (dated.0.index *ℤ n) row.price) rows begun dated.1 in
            rw (dated.0.is_index, other, good.is_label, rest.returns)
              (record {
                bars = _;
                returns = refl;
                candles = (good.candle, rest.candles);
                ticks = omega (arith, rest.ticks);
              })
      ]

  open_IsSeries :
      (rows : List (Row fl))
      → AllDated times n rows
      → IsSeries fl (length rows) (resample times n none rows)
  unfolding resample
  open_IsSeries [] dated = record { bars = []; returns = refl; candles = tt; ticks = refl }
  open_IsSeries (row ∷ rows) dated =
      let begun = start-IsGood (dated.0.index *ℤ n) dated.0.label row.price dated.0.is_label in
      let rest = resample-IsSeries (start (dated.0.index *ℤ n) row.price) rows begun dated.1 in
      rw (dated.0.is_index, rest.returns)
        (record {
          bars = rest.bars;
          returns = refl;
          candles = rest.candles;
          ticks = omega (arith, rest.ticks);
        })

  -- For floats that meet IsOrdered and a positive width: where every usable tick falls in a bucket
  -- that has a date, the bars are returned, each has its low below and its high above its other
  -- prices, and together they count every usable tick once.
  pub ticks_to_ohlcv-IsSeries :
      (ticks : List (Payload fl)) (price_field ts_field : String)
      → leb_ℤ n (pos 0) ≡ false
      → AllDated times n (rows_of times price_field ts_field ticks)
      → IsSeries fl
          (length (rows_of times price_field ts_field ticks))
          (ticks_to_ohlcv times ticks n price_field ts_field)
  unfolding ticks_to_ohlcv
  ticks_to_ohlcv-IsSeries ticks price_field ts_field positive dated =
      let rows = rows_of times price_field ts_field ticks in
      let series = open_IsSeries (sort_rows rows) (AllDated-sort times n rows dated) in
      rw positive (record {
        bars = series.bars;
        returns = series.returns;
        candles = series.candles;
        ticks = series.ticks ∙ length-sort rows;
      })
