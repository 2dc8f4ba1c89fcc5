-- ===== src/Payload.antt =====
-- The opportunity payloads that the services pass along as JSON: what `json.loads` returns, and how
-- the services read a key. JSON numbers are floats here.
use messiah_fx_prod.Prelude.{
  String, Bool, true, false, not, ◌≡◌, refl, Option, none, some, ◌=ˢ◌, eq_iff, arith, if◌then◌else◌,
}
use messiah_fx_prod.Numbers.{Floats, num_zero, num_one}

mutual
  pub data Value (fl : Floats) : Type 0 where
    null : Value fl
    flag : Bool → Value fl
    num : fl.F → Value fl
    text : String → Value fl
    array : Items fl → Value fl
    object : Payload fl → Value fl

  pub data Items (fl : Floats) : Type 0 where
    no_items : Items fl
    item : Value fl → Items fl → Items fl

  pub data Payload (fl : Floats) : Type 0 where
    no_fields : Payload fl
    field : String → Value fl → Payload fl → Payload fl

module _ {fl : Floats} where
  -- `d.get(k)`
  abbrev pub get : String → Payload fl → Option (Value fl)
  get k no_fields = none
  get k (field j v d) = if k =ˢ j then some v else get k d

  -- `d.get(k, default)`
  abbrev pub get_or : String → Value fl → Payload fl → Value fl
  get_or k v d = elim (get k d) [ none ↦ v | some w ↦ w ]

  -- `d[k] = v`
  abbrev pub put : String → Value fl → Payload fl → Payload fl
  put k v no_fields = field k v no_fields
  put k v (field j w d) = if k =ˢ j then field j v d else field j w (put k v d)

  pub get-put :
      (j k : String) (v : Value fl) (d : Payload fl)
      → get j (put k v d) ≡ (if j =ˢ k then some v else get j d)
  get-put j k v no_fields = refl
  get-put j k v (field i w d) = ground (arith, eq_iff j k, eq_iff k i, eq_iff j i, get-put j k v d)

  -- `bool(v)`
  abbrev pub truthy : Value fl → Bool
  truthy null = false
  truthy (flag b) = b
  truthy (num x) = not (fl.eq x (num_zero fl))
  truthy (text s) = not (s =ˢ "")
  truthy (array no_items) = false
  truthy (array (item _ _)) = true
  truthy (object no_fields) = false
  truthy (object (field _ _ _)) = true

  -- `float(v)`, `none` where it raises
  abbrev pub to_float : Value fl → Option fl.F
  to_float null = none
  to_float (flag b) = some (if b then num_one fl else num_zero fl)
  to_float (num x) = some x
  to_float (text s) = fl.parse s
  to_float (array _) = none
  to_float (object _) = none
