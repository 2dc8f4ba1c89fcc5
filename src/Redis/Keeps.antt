-- ===== src/Redis/Keeps.antt =====
-- Calls that keep a property of the server, whether they return or raise.
use messiah_fx_prod.Prelude.{
  String, ◌≡◌, refl, Bool, true, false, if◌then◌else◌, Option, none, some,
}
use messiah_fx_prod.Prelude.Dict.{lookup}
use messiah_fx_prod.Numbers.{Floats}
use messiah_fx_prod.Redis.{
  Redis, IsServer, World, Exec, Command, after, increments, field_after, ◌>>=◌,
}

-- The field `f` of the hash `k` is what it was after the command.
abbrev pub Spares : {fl : Floats} → Command fl → String → String → Type 0
Spares c k f = (increments c k f ≡ false) × ((old : Option String) → field_after c k f old ≡ old)

abbrev pub HasField : {fl : Floats} (r : Redis fl) → String → String → String → r.S → Type 0
HasField r k f v s = lookup f (r.hash_at k s) ≡ some v

abbrev pub Keeps : {fl : Floats} (r : Redis fl) {A : Type 0} → (r.S → Type 0) → Exec r A → Type 0
Keeps r P m = (w : World r) → P w.server → P (m w).1.server

module _ {fl : Floats} (r : Redis fl) where
  module _ (P : r.S → Type 0) {A B : Type 0} where
    pub Keeps-after :
        (f : A → Exec r B) (o : Option A × World r)
        → P o.1.server
        → ((a : A) → Keeps r P (f a))
        → P (after f o).1.server
    Keeps-after f (none, w) h k = h
    Keeps-after f (some a, w) h k = k a w h

    pub Keeps-bind :
        (m : Exec r A) (f : A → Exec r B)
        → Keeps r P m
        → ((a : A) → Keeps r P (f a))
        → Keeps r P (m >>= f)
    Keeps-bind m f h k w p = Keeps-after f (m w) (h w p) k

  pub HasField-run :
      IsServer r
      → (k f v : String) (c : Command fl) → Spares c k f
      → (s : r.S) → HasField r k f v s
      → HasField r k f v (r.run c s)
  HasField-run laws k f v c spares s h = rw (laws.field-run c k f s spares.0, h) (spares.1 (some v))

  -- What is kept on both sides of a test.
  pub Keeps-test :
      (P : r.S → Type 0) {A : Type 0} (b : Bool) (m n : Exec r A) (w : World r)
      → (b ≡ true → P (m w).1.server)
      → (b ≡ false → P (n w).1.server)
      → P ((if b then m else n) w).1.server
  Keeps-test P true m n w h k = h refl
  Keeps-test P false m n w h k = k refl
