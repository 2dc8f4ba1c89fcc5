-- ===== src/AiFilter/Advice/Outcomes.antt =====
-- Calls that end alike: they both return or both raise, and they sent the same commands but for what the
-- AI filter adds.
use messiah_fx_prod.Prelude.{Bool, true, false, refl, Option, none, some, if◌then◌else◌}
use messiah_fx_prod.Numbers.{Floats}
use messiah_fx_prod.Redis.{Redis, World, Exec, after, pure}
use messiah_fx_prod.AiFilter.Advice.Erasure.{SentAlike}

-- Two outcomes of a call: both raised, or both returned, related values; and alike commands were sent.
unfoldable pub Alike :
    {fl : Floats} {r : Redis fl} {A : Type 0}
    → (A → A → Type 0)
    → Option A × World r
    → Option A × World r
    → Type 0
Alike R (none, v) (none, w) = SentAlike v w
Alike R (none, v) (some b, w) = ⊥
Alike R (some a, v) (none, w) = ⊥
Alike R (some a, v) (some b, w) = R a b × SentAlike v w

abbrev pub Both : {A : Type 0} → A → A → Type 0
Both a b = Unit

module _ {fl : Floats} {r : Redis fl} where
  pub returned :
      {A : Type 0} (R : A → A → Type 0) (a b : A) (v w : World r)
      → R a b
      → SentAlike v w
      → Alike R (some a, v) (some b, w)
  unfolding Alike
  returned R a b v w h k = (h, k)

  pub sent_of_Alike :
      {A : Type 0} (R : A → A → Type 0) (x y : Option A × World r) → Alike R x y → SentAlike x.1 y.1
  unfolding Alike
  sent_of_Alike R (none, v) (none, w) h = h
  sent_of_Alike R (none, v) (some b, w) h = absurd h
  sent_of_Alike R (some a, v) (none, w) h = absurd h
  sent_of_Alike R (some a, v) (some b, w) h = h.1

  -- Both sides go on from one outcome.
  pub after_same :
      {A B : Type 0} (R : B → B → Type 0) (f g : A → Exec r B) (o : Option A × World r)
      → ((a : A) (w : World r) → Alike R (f a w) (g a w))
      → Alike R (after f o) (after g o)
  unfolding Alike
  after_same R f g (none, w) h = refl
  after_same R f g (some a, w) h = h a w

  pub after-Alike :
      {A B : Type 0} (P : A → A → Type 0) (R : B → B → Type 0) (f g : A → Exec r B)
      (x y : Option A × World r)
      → Alike P x y
      → ((a b : A) (v w : World r) → P a b → SentAlike v w → Alike R (f a v) (g b w))
      → Alike R (after f x) (after g y)
  unfolding Alike
  after-Alike P R f g (none, v) (none, w) h k = h
  after-Alike P R f g (none, v) (some b, w) h k = absurd h
  after-Alike P R f g (some a, v) (none, w) h k = absurd h
  after-Alike P R f g (some a, v) (some b, w) h k = k a b v w h.0 h.1

  pub pick-Alike :
      {A : Type 0} (R : A → A → Type 0) (b : Bool) (m n m' n' : Exec r A) (w : World r)
      → Alike R (m w) (m' w)
      → Alike R (n w) (n' w)
      → Alike R ((if b then m else n) w) ((if b then m' else n') w)
  pick-Alike R true m n m' n' w h k = h
  pick-Alike R false m n m' n' w h k = k

  -- A call under a test.
  pub then-Alike :
      (b : Bool) (m : Exec r Unit) (v w : World r)
      → SentAlike v w
      → Alike Both (m v) (m w)
      → Alike Both ((if b then m else pure tt) v) ((if b then m else pure tt) w)
  then-Alike true m v w h k = k
  then-Alike false m v w h k = returned Both tt tt v w tt h
