-- ===== src/Executor/Desk.antt =====
-- What the executor reaches: the Redis server, the recorded results, the books, and the orders that
-- the venues were sent. The texts under execution:result:* are the results that they hold; only the
-- replay guard touches them, and they last as long as the model runs.
use messiah_fx_prod.Prelude.{String, Option, none, some, List}
use messiah_fx_prod.Prelude.Dict.{Dict}
use messiah_fx_prod.Numbers.{Floats}
use messiah_fx_prod.Redis.{Redis, World, Exec}
use messiah_fx_prod.Executor.Orders.{OrderRequest, OrderResult}
use messiah_fx_prod.Executor.Books.{Books, persist_trade}

pub record Desk {fl : Floats} (r : Redis fl) : Type 0 where
  pub world : World r
  pub results : Dict (OrderResult fl)
  pub books : Books fl
  pub submitted : List (OrderRequest fl)

-- A call: it returns or raises, and what it did before it raised stays done.
abbrev pub Call : {fl : Floats} → Redis fl → Type 0 → Type 0
Call r A = Desk r → Option A × Desk r

module _ {fl : Floats} {r : Redis fl} where
  abbrev pub pure : {A : Type 0} → A → Call r A
  pure a d = (some a, d)

  abbrev pub or_raise : {A : Type 0} → Option A → Call r A
  or_raise o d = (o, d)

  abbrev pub reads : {A : Type 0} → (r.S → A) → Call r A
  reads f d = (some (f d.world.server), d)

  abbrev pub after : {A B : Type 0} → (A → Call r B) → Option A × Desk r → Option B × Desk r
  after f (none, d) = (none, d)
  after f (some a, d) = f a d

  infixl 5 ◌>>=◌ ◌>>◌
  abbrev pub ◌>>=◌ : {A B : Type 0} → Call r A → (A → Call r B) → Call r B
  ◌>>=◌ m f d = after f (m d)

  abbrev pub ◌>>◌ : {A B : Type 0} → Call r A → Call r B → Call r B
  m >> k = m >>= λ _. k

  -- A call of the server
  abbrev pub on_server : {A : Type 0} → Exec r A → Call r A
  on_server m d = ((m d.world).0, record d { world = (m d.world).1 })

  abbrev pub persist : String → OrderRequest fl → OrderResult fl → Call r (Option fl.F)
  persist now order result d = (
    (persist_trade now order result d.books).0,
    record d { books = (persist_trade now order result d.books).1 },
  )
