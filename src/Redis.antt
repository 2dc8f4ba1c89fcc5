-- ===== src/Redis.antt =====
-- The Redis server and the database as the services use them. The server is a parameter: its state,
-- its reads, and what a command does to it, with the documented effect of a command on a text and on
-- a field of a hash as laws. Commands that were sent are kept in order, and so are the
-- writes to the database, which no service here reads back and which do not fail here.
pub mod Keeps
pub mod Trim
pub mod Memory
use messiah_fx_prod.Prelude.{
  ℕ, ◌+◌, ltb, length, ◌⊎◌, String, Bool, true, false, ◌&&◌, ◌≡◌, Option, none, some, List, [], ◌∷◌,
  ◌++◌, ◌=ˢ◌, if◌then◌else◌,
}
use messiah_fx_prod.Prelude.Int.{ℤ, pos, ◌+ℤ◌}
use messiah_fx_prod.Prelude.ParseInt.{show_int}
use messiah_fx_prod.Prelude.Dict.{Dict, lookup}
use messiah_fx_prod.Numbers.{Floats}
use messiah_fx_prod.Payload.{Payload, Value}

-- A field or list item that holds JSON text holds the value itself here.
pub data Command (fl : Floats) : Type 0 where
  -- SET key value, and SET key value EX seconds
  set : String → String → Command fl
  set_ex : String → String → ℕ → Command fl
  delete : String → Command fl
  hset : String → Dict String → Command fl
  -- HINCRBY key field 1
  hincr : String → String → Command fl
  -- a plain text of a list is the value `text` here
  rpush : String → Value fl → Command fl
  -- LTRIM key -n -1, which for 0 keeps all
  ltrim : String → ℕ → Command fl
  -- INCR key, and EXPIRE key seconds
  incr : String → Command fl
  expire : String → ℕ → Command fl
  xadd : String → Payload fl → Command fl
  -- XACK stream group id
  xack : String → String → String → Command fl
  -- rows of audit_log (event type and payload), risk_events (its description) and opportunities
  audit : String → Payload fl → Command fl
  risk_event : String → Command fl
  upsert : String → Payload fl → Command fl
  mark_executed : String → Command fl
  -- the row of a strategy in strategy_configs
  configure : String → Payload fl → Command fl

-- The text under a key after a command that had `old` there.
abbrev pub text_after : {fl : Floats} → Command fl → String → Option String → Option String
text_after (set j v) k old = if k =ˢ j then some v else old
text_after (set_ex j v ttl) k old = if k =ˢ j then some v else old
text_after (delete j) k old = if k =ˢ j then none else old
text_after _ k old = old

-- The field `f` of the hash `k` after a command other than HINCRBY on it.
abbrev pub field_after :
    {fl : Floats} → Command fl → String → String → Option String → Option String
field_after (set j v) k f old = if k =ˢ j then none else old
field_after (set_ex j v ttl) k f old = if k =ˢ j then none else old
field_after (delete j) k f old = if k =ˢ j then none else old
field_after (hset j m) k f old =
    if k =ˢ j then (elim (lookup f m) [ none ↦ old | some v ↦ some v ]) else old
field_after _ k f old = old

-- INCR on a key changes its text in a way of its own.
abbrev pub counts : {fl : Floats} → Command fl → String → Bool
counts (incr j) k = k =ˢ j
counts _ k = false

-- The last `n` of a list, and for 0 the whole list: what LTRIM key -n -1 leaves.
unfoldable pub trim {ℓ} : {A : Type ℓ} → ℕ → List A → List A
trim n [] = []
trim n (x ∷ xs) = if ltb 0 n && ltb n (length (x ∷ xs)) then trim n xs else x ∷ xs

-- The list under a key after a command that had `old` there.
abbrev pub list_after : {fl : Floats} → Command fl → String → List (Value fl) → List (Value fl)
list_after (set j v) k old = if k =ˢ j then [] else old
list_after (set_ex j v ttl) k old = if k =ˢ j then [] else old
list_after (delete j) k old = if k =ˢ j then [] else old
list_after (rpush j v) k old = if k =ˢ j then old ++ v ∷ [] else old
list_after (ltrim j n) k old = if k =ˢ j then trim n old else old
list_after _ k old = old

abbrev pub increments : {fl : Floats} → Command fl → String → String → Bool
increments (hincr j g) k f = k =ˢ j && f =ˢ g
increments _ k f = false

pub record Redis (fl : Floats) : Type 1 where
  pub S : Type 0
  -- GET, EXISTS, HGETALL
  pub text_at : String → S → Option String
  pub exists : String → S → Bool
  pub hash_at : String → S → Dict String
  -- LRANGE key 0 -1
  pub list_at : String → S → List (Value fl)
  -- the reply of INCR key, `none` for an error
  pub count_reply : String → S → Option ℤ
  -- the reply of HINCRBY key field 1, `none` for an error
  pub incr_reply : String → String → S → Option ℤ
  pub run : Command fl → S → S

-- What the services rely on, on a server where a key that holds a hash holds no text. A key does not
-- expire while a command runs.
pub record IsServer {fl : Floats} (r : Redis fl) : Type 0 where
  pub text-run :
      (c : Command fl) (k : String) (s : r.S)
      → counts c k ≡ false
      → r.text_at k (r.run c s) ≡ text_after c k (r.text_at k s)
  pub list-run :
      (c : Command fl) (k : String) (s : r.S)
      → r.list_at k (r.run c s) ≡ list_after c k (r.list_at k s)
  -- INCR on a key that holds nothing, or a natural number in decimal
  pub count-run :
      (k : String) (s : r.S) (n : ℕ)
      → (r.text_at k s ≡ none × n ≡ 0) ⊎ (r.text_at k s ≡ some (show_int (pos n)))
      → (r.count_reply k s ≡ some (pos (n + 1)))
        × (r.text_at k (r.run (incr k) s) ≡ some (show_int (pos (n + 1))))
  pub field-run :
      (c : Command fl) (k f : String) (s : r.S)
      → increments c k f ≡ false
      → lookup f (r.hash_at k (r.run c s)) ≡ field_after c k f (lookup f (r.hash_at k s))
  -- HINCRBY on a field that holds a natural number in decimal
  pub incr-run :
      (k f : String) (s : r.S) (n : ℕ)
      → lookup f (r.hash_at k s) ≡ some (show_int (pos n))
      → (r.incr_reply k f s ≡ some (pos (n + 1)))
        × (lookup f (r.hash_at k (r.run (hincr k f) s)) ≡ some (show_int (pos (n + 1))))

-- What a service can reach: the server, and the commands sent so far.
pub record World {fl : Floats} (r : Redis fl) : Type 0 where
  pub server : r.S
  pub sent : List (Command fl)

-- A call: it returns or raises, and what it sent before it raised stays sent.
abbrev pub Exec : {fl : Floats} → Redis fl → Type 0 → Type 0
Exec r A = World r → Option A × World r

module _ {fl : Floats} {r : Redis fl} where
  abbrev pub pure : {A : Type 0} → A → Exec r A
  pure a w = (some a, w)

  abbrev pub or_raise : {A : Type 0} → Option A → Exec r A
  or_raise o w = (o, w)

  abbrev pub reads : {A : Type 0} → (r.S → A) → Exec r A
  reads f w = (some (f w.server), w)

  abbrev pub send : Command fl → Exec r Unit
  send c w = (some tt, record { server = r.run c w.server; sent = w.sent ++ c ∷ [] })

  abbrev pub after : {A B : Type 0} → (A → Exec r B) → Option A × World r → Option B × World r
  after f (none, w) = (none, w)
  after f (some a, w) = f a w

  infixl 5 ◌>>=◌ ◌>>◌
  abbrev pub ◌>>=◌ : {A B : Type 0} → Exec r A → (A → Exec r B) → Exec r B
  ◌>>=◌ m f w = after f (m w)

  abbrev pub ◌>>◌ : {A B : Type 0} → Exec r A → Exec r B → Exec r B
  m >> k = m >>= λ _. k

  -- HINCRBY key field 1, which replies the new value
  abbrev pub hincrby : String → String → Exec r ℤ
  hincrby k f w = after (λ n. send (hincr k f) >> pure n) (r.incr_reply k f w.server, w)

  -- INCR key, which replies the new value
  abbrev pub increment : String → Exec r ℤ
  increment k w = after (λ n. send (incr k) >> pure n) (r.count_reply k w.server, w)

  -- `try: ... except Exception: pass`, where what was sent stays sent
  abbrev pub swallowed : Exec r Unit → Exec r Unit
  swallowed m w = (some tt, (m w).1)
