-- ===== src/Bars.antt =====
-- shared/mezna_shared/bars.py: quote ticks in bars of a fixed width. The datetime module is a
-- parameter.
pub mod Candles
use Prim.Native.Char.{code}
use Prim.Native.String
use messiah_fx_prod.Prelude.{
  ℕ, suc, String, Bool, true, false, ◌||◌, ◌==◌, Option, none, some, List, [], ◌∷◌, ◌++◌, ◌=ˢ◌,
  ◌>>=◌, if◌then◌else◌,
}
use messiah_fx_prod.Prelude.Int.{ℤ, pos, ◌*ℤ◌, leb_ℤ, eqb_ℤ}
use messiah_fx_prod.Prelude.Text.{strip}
use messiah_fx_prod.Numbers.{Floats, num_zero, max_of, min_of}
use messiah_fx_prod.Payload.{Payload, Value, null, flag, num, text, get, to_float}

-- Python's datetime, and the bucket of a time.
pub record Times (fl : Floats) : Type 0 where
  -- `datetime.fromisoformat(s).timestamp()`, `none` where it raises
  pub from_iso : String → Option fl.F
  -- `datetime.fromtimestamp(n, tz=timezone.utc).isoformat()`, `none` where it raises
  pub iso : ℤ → Option String
  -- `int(ts // n)`, `none` for a time that is no finite number
  pub floor_div : fl.F → ℤ → Option ℤ

-- `s.replace("Z", "+00:00")`
replace_z : String → String
replace_z String.[] = String.[]
replace_z (String.◌∷◌ c s) =
    if code c == 90 then String.◌++◌ "+00:00" (replace_z s) else String.◌∷◌ c (replace_z s)

pub record Bar (fl : Floats) : Type 0 where
  pub epoch : ℤ
  pub ts : String
  pub open_price : fl.F
  pub high : fl.F
  pub low : fl.F
  pub close_price : fl.F
  pub volume : ℕ

-- A tick that has a time and a positive price.
pub record Row (fl : Floats) : Type 0 where
  pub at_time : fl.F
  pub price : fl.F

module _ {fl : Floats} where
  -- `_parse_ts`; a list or an object is no time, nor is a missing value
  parse_text : Times fl → String → Option fl.F
  unfolding replace_z
  parse_text times s =
      if s =ˢ ""
      then none
      else (elim (times.from_iso (replace_z s)) [ none ↦ fl.parse s | some t ↦ some t ])

  parse_ts : Times fl → Option (Value fl) → Option fl.F
  unfolding parse_text
  parse_ts times none = none
  parse_ts times (some (num x)) = some x
  parse_ts times (some (flag b)) = to_float {fl = fl} (flag b)
  parse_ts times (some (text s)) = parse_text times (strip s)
  parse_ts times (some _) = none

  -- `_to_float`
  abbrev float_of : Option (Value fl) → Option fl.F
  float_of none = none
  float_of (some v) = to_float v

  -- A tick without a time, or without a price past 0, is skipped.
  abbrev usable : Option fl.F → Option fl.F → List (Row fl) → List (Row fl)
  usable (some ts) (some px) rows =
      if fl.le px (num_zero fl) then rows else record { at_time = ts; price = px } ∷ rows
  usable _ _ rows = rows

  unfoldable pub rows_of : Times fl → String → String → List (Payload fl) → List (Row fl)
  unfolding parse_ts
  rows_of times price_field ts_field [] = []
  rows_of times price_field ts_field (t ∷ ticks) =
      usable (parse_ts times (get ts_field t)) (float_of (get price_field t))
        (rows_of times price_field ts_field ticks)

  -- `rows.sort(key=...)`, which is stable
  unfoldable pub insert_row : Row fl → List (Row fl) → List (Row fl)
  insert_row row [] = row ∷ []
  insert_row row (next ∷ rows) =
      if fl.lt next.at_time row.at_time then next ∷ insert_row row rows else row ∷ next ∷ rows

  unfoldable pub sort_rows : List (Row fl) → List (Row fl)
  sort_rows [] = []
  sort_rows (row ∷ rows) = insert_row row (sort_rows rows)

-- The bar that the loop is in.
pub record Current (fl : Floats) : Type 0 where
  pub bucket : ℤ
  pub o : fl.F
  pub h : fl.F
  pub l : fl.F
  pub c : fl.F
  pub vol : ℕ

module _ {fl : Floats} where
  abbrev pub start : ℤ → fl.F → Current fl
  start bucket px = record { bucket = bucket; o = px; h = px; l = px; c = px; vol = 1 }

  abbrev pub extend : fl.F → Current fl → Current fl
  extend px b = record b { h = max_of fl b.h px; l = min_of fl b.l px; c = px; vol = suc b.vol }

  -- `_make_bar`
  abbrev pub make_bar : Times fl → Current fl → Option (Bar fl)
  make_bar times b = do
    ts ← times.iso b.bucket
    some (record {
      epoch = b.bucket;
      ts = ts;
      open_price = b.o;
      high = b.h;
      low = b.l;
      close_price = b.c;
      volume = b.vol;
    })

  -- What the loop closes at a row, and the bar that it is in then.
  abbrev pub advance : Option (Current fl) → ℤ → fl.F → Option (Current fl) × Current fl
  advance none bucket px = (none, start bucket px)
  advance (some b) bucket px =
      if eqb_ℤ bucket b.bucket then (none, extend px b) else (some b, start bucket px)

  abbrev pub close_bar : Times fl → Option (Current fl) → Option (List (Bar fl))
  close_bar times none = some []
  close_bar times (some b) = do bar ← make_bar times b; some (bar ∷ [])

  -- The loop over the rows.
  unfoldable pub resample :
      Times fl → ℤ → Option (Current fl) → List (Row fl) → Option (List (Bar fl))
  resample times interval_seconds cur [] = close_bar times cur
  resample times interval_seconds cur (row ∷ rows) = do
    q ← times.floor_div row.at_time interval_seconds
    let step = advance cur (q *ℤ interval_seconds) row.price
    closed ← close_bar times step.0
    bars ← resample times interval_seconds (some step.1) rows
    some (closed ++ bars)

  unfoldable pub ticks_to_ohlcv :
      Times fl → List (Payload fl) → ℤ → String → String → Option (List (Bar fl))
  ticks_to_ohlcv times ticks interval_seconds price_field ts_field =
      if leb_ℤ interval_seconds (pos 0)
      then some []
      else resample times interval_seconds none
          (sort_rows (rows_of times price_field ts_field ticks))
