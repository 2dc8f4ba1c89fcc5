-- ===== src/Strategies/SignalConsumer/Symbols.antt =====
-- services/strategy/app/signal_consumer.py, _normalise_symbol: a separator is put before the quote.
use mathlib.Core.Bool.{false≢true}
use Prim.Native.String.{◌++◌, [] as empty, ◌∷◌ as ◌∷ˢ◌}
use text.Mathlib.TextEquality.{eq_iff}
use text.Mathlib.TextLemmas.{nil-append, cons-append, tail-eq_of_cons-eq}
use messiah_fx_prod.Prelude.{
  String, true, false, ◌≡◌, refl, sym, ap, ◌∙◌, ◌⊎◌, inl, inr, none, some, List, [], ◌∷◌,
  ◌++◌ as ◌++ˡ◌, ◌=ˢ◌, Bool-cases, Option-cases,
}
use messiah_fx_prod.Prelude.Dict.{All}
use messiah_fx_prod.Strategies.SignalConsumer.{
  has_separator, before_quote, split_quote, oanda_quotes, crypto_quotes, split_symbol,
}

before_quote-append : (quote s base : String) → before_quote quote s ≡ some base → base ++ quote ≡ s
unfolding before_quote
before_quote-append quote empty base h = cc h
before_quote-append quote (c ∷ˢ s) base h = elim (Bool-cases (s =ˢ quote)) [
  | inl same ↦
      let e : c ∷ˢ empty ≡ base = cc (rw same at h) in
      rw (← e, cons-append c "" quote, nil-append quote, (eq_iff s quote).0 same) refl
  | inr other ↦ elim (Option-cases (before_quote quote s)) [
    | inl missing ↦ cc (rw (other, missing) at h)
    | inr (front, found) ↦
        let e : (c ∷ˢ empty) ++ front ≡ base = cc (rw (other, found) at h) in
        rw
          (
            ← e,
            cons-append c "" front,
            nil-append front,
            cons-append c front quote,
            before_quote-append quote s front found,
          )
          refl
  ]
]

-- What stands before a quote at the end of the symbol is empty.
abbrev pub IsBare : String → String → Type 0
IsBare sym quote = (base : String) → base ++ quote ≡ sym → base ≡ ""

before_quote-IsBare : (quote s : String) → before_quote quote s ≡ none → IsBare s quote
unfolding before_quote
before_quote-IsBare quote s h empty e = refl
before_quote-IsBare quote empty h (c ∷ˢ base) e = absurd (cc (sym (cons-append c base quote) ∙ e))
before_quote-IsBare quote (d ∷ˢ s) h (c ∷ˢ base) e =
    let rest : base ++ quote ≡ s = tail-eq_of_cons-eq (sym (cons-append c base quote) ∙ e) in
    elim (Bool-cases (s =ˢ quote)) [
      | inl same ↦ absurd (cc (rw same at h))
      | inr other ↦ elim (Option-cases (before_quote quote s)) [
        | inr (front, found) ↦ absurd (cc (rw (other, found) at h))
        | inl missing ↦
            let no_base : base ≡ "" = before_quote-IsBare quote s missing base rest in
            let whole : quote ≡ s =
              sym (nil-append quote) ∙ ap (λ b. b ++ quote) (sym no_base) ∙ rest in
            absurd (false≢true (sym other ∙ (eq_iff s quote).1 (sym whole)))
      ]
    ]

-- The symbol is split before the first of the quotes that it ends with, or kept if there is none.
abbrev pub IsSplit : String → List String → String → String → Type 0
IsSplit separator quotes symbol out =
    (All (IsBare symbol) quotes × (out ≡ symbol))
    ⊎ ((before : List String) × (quote : String) × (later : List String) × (base : String) × (quotes
          ≡ before ++ˡ quote ∷ later)
        × All (IsBare symbol) before
        × (base ++ quote ≡ symbol)
        × (out ≡ base ++ separator ++ quote))

split_quote-IsSplit :
    (separator : String) (quotes : List String) (symbol : String)
    → IsSplit separator quotes symbol (split_quote separator quotes symbol)
split_quote-IsSplit separator [] symbol = inl (tt, refl)
split_quote-IsSplit separator (quote ∷ quotes) symbol =
    elim (Option-cases (before_quote quote symbol)) [
      | inr (base, found) ↦ rw found (
          inr
            ([], quote, quotes, base, refl, tt, before_quote-append quote symbol base found, refl))
      | inl missing ↦
          let bare = before_quote-IsBare quote symbol missing in
          rw missing (elim (split_quote-IsSplit separator quotes symbol) [
            | inl (none_fits, kept) ↦ inl ((bare, none_fits), kept)
            | inr (before, q, later, base, parts, none_before, whole, e) ↦ inr (
              quote ∷ before,
              q,
              later,
              base,
              ap (λ qs. quote ∷ qs) parts,
              (bare, none_before),
              whole,
              e,
            )
          ])
    ]

-- A symbol with a slash or an underscore is kept. At OANDA any other is split by an underscore before
-- the first of its quotes that it ends with, elsewhere by a slash before one of the exchanges' quotes.
abbrev pub IsNormal : String → String → String → Type 0
IsNormal symbol venue out =
    ((has_separator symbol ≡ true) × (out ≡ symbol))
    ⊎ ((has_separator symbol ≡ false)
        × (venue ≡ "oanda")
        × IsSplit "_" ("USD" ∷ "EUR" ∷ "GBP" ∷ "JPY" ∷ "CHF" ∷ "AUD" ∷ "CAD" ∷ "NZD" ∷ []) symbol
            out)
    ⊎ ((has_separator symbol ≡ false)
        × ((venue =ˢ "oanda") ≡ false)
        × IsSplit "/" ("USDT" ∷ "USDC" ∷ "BUSD" ∷ "BTC" ∷ "ETH" ∷ "BNB" ∷ "USD" ∷ []) symbol out)

pub split_symbol-IsNormal :
    (symbol venue : String) → IsNormal symbol venue (split_symbol symbol venue)
unfolding split_symbol
split_symbol-IsNormal symbol venue = elim (Bool-cases (has_separator symbol)) [
  | inl there ↦ rw there (inl (refl, refl))
  | inr missing ↦ elim (Bool-cases (venue =ˢ "oanda")) [
    | inl oanda ↦
        rw (missing, oanda)
          (inr (
            inl
              (refl, (eq_iff venue "oanda").0 oanda, split_quote-IsSplit "_" oanda_quotes symbol)))
    | inr other ↦
        rw (missing, other) (inr (inr (refl, refl, split_quote-IsSplit "/" crypto_quotes symbol)))
  ]
]
