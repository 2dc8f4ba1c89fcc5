-- ===== src/AiFilter/Advice/Erasure.antt =====
-- What stays of a payload, and of a command, without the fields that the AI filter adds.
use mathlib.Core.List.{map-append}
use messiah_fx_prod.Prelude.{
  String, Bool, true, false, ◌≡◌, refl, ap, ◌∙◌, sym, List, [], ◌∷◌, ◌++◌, map, ◌=ˢ◌, eq_iff,
  if◌then◌else◌, inl, inr, Bool-cases,
}
use messiah_fx_prod.Prelude.Dict.{contains}
use messiah_fx_prod.Numbers.{Floats}
use messiah_fx_prod.Payload.{
  Payload, Value, Items, null, flag, num, text, array, object, no_items, item, no_fields, field,
  put,
}
use messiah_fx_prod.Redis.{Redis, World, Command, xadd, audit, upsert}
use messiah_fx_prod.Risk.Consumer.{text_items}

abbrev pub is_ai : String → Bool
is_ai k = contains k ("ai_score" ∷ "ai_reason" ∷ "ai_timeout" ∷ "ai_scored_at" ∷ [])

module _ {fl : Floats} where
  unfoldable mutual
    pub erase_value : Value fl → Value fl
    erase_value null = null
    erase_value (flag b) = flag b
    erase_value (num x) = num x
    erase_value (text s) = text s
    erase_value (array vs) = array (erase_items vs)
    erase_value (object d) = object (erase d)

    pub erase_items : Items fl → Items fl
    erase_items no_items = no_items
    erase_items (item v vs) = item (erase_value v) (erase_items vs)

    pub erase : Payload fl → Payload fl
    erase no_fields = no_fields
    erase (field k v d) = if is_ai k then erase d else field k (erase_value v) (erase d)

  pub erase-put_ai :
      (k : String) (v : Value fl) (d : Payload fl) → is_ai k ≡ true → erase (put k v d) ≡ erase d
  unfolding erase
  erase-put_ai k v no_fields h = rw h
  erase-put_ai k v (field j w d) h = elim (Bool-cases (k =ˢ j)) [
    | inl same ↦ let h' : is_ai j ≡ true = ap is_ai (sym ((eq_iff k j).0 same)) ∙ h in rw (same, h')
    | inr other ↦ rw (other, erase-put_ai k v d h) refl
  ]

  pub erase-put :
      (k : String) (v : Value fl) (d : Payload fl)
      → is_ai k ≡ false
      → erase (put k v d) ≡ put k (erase_value v) (erase d)
  unfolding erase
  erase-put k v no_fields h = rw h
  erase-put k v (field j w d) h = elim (Bool-cases (k =ˢ j)) [
    | inl same ↦
        let h' : is_ai j ≡ false = ap is_ai (sym ((eq_iff k j).0 same)) ∙ h in rw (same, h', same)
    | inr other ↦ elim (Bool-cases (is_ai j)) [
      | inl ai ↦ rw (other, ai, erase-put k v d h) refl
      | inr kept ↦ rw (other, kept, other, erase-put k v d h) refl
    ]
  ]

  pub erase_items-text : (ss : List String) → erase_items (text_items ss) ≡ text_items ss
  unfolding erase
  erase_items-text [] = refl
  erase_items-text (s ∷ ss) = rw (erase_items-text ss)

  -- Only entries of streams, of the audit log and of the table of opportunities carry payloads.
  abbrev pub erase_command : Command fl → Command fl
  erase_command (xadd k d) = xadd k (erase d)
  erase_command (audit e d) = audit e (erase d)
  erase_command (upsert id d) = upsert id (erase d)
  erase_command c = c

  -- The same commands were sent, but for what the AI filter adds.
  abbrev pub SentAlike : {r : Redis fl} → World r → World r → Type 0
  SentAlike v w = map erase_command v.sent ≡ map erase_command w.sent

  pub sent-append :
      (cs ds : List (Command fl)) (c d : Command fl)
      → erase_command c ≡ erase_command d
      → map erase_command cs ≡ map erase_command ds
      → map erase_command (cs ++ c ∷ []) ≡ map erase_command (ds ++ d ∷ [])
  sent-append cs ds c d e h =
      rw (map-append erase_command cs (c ∷ []), map-append erase_command ds (d ∷ []), h, e) refl
