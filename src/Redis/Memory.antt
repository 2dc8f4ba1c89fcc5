-- ===== src/Redis/Memory.antt =====
-- A Redis server in memory, for runs of the model: functions from keys, to texts,
-- hashes and lists.
use messiah_fx_prod.Prelude.{
  ℕ, ◌+◌, String, Bool, true, false, ◌||◌, ◌≡◌, refl, ap, Option, none, some, [], ◌∷◌, ◌=ˢ◌, inl,
  inr, ◌⊎◌, List, if◌then◌else◌, Bool-cases, arith, eq_iff,
}
use messiah_fx_prod.Prelude.Int.{ℤ, pos, ◌+ℤ◌}
use messiah_fx_prod.Prelude.ParseInt.{parse_int, show_int}
use messiah_fx_prod.Prelude.ParseInt.Digits.{parse-show_int}
use messiah_fx_prod.Prelude.Dict.{Dict, lookup, insert, lookup-insert}
use messiah_fx_prod.Numbers.{Floats}
use messiah_fx_prod.Payload.{Value}
use messiah_fx_prod.Redis.{
  Redis, IsServer, Command, set, set_ex, delete, hset, hincr, rpush, ltrim, incr, expire,
  list_after, counts, xadd, xack, audit, risk_event, upsert, mark_executed, configure, text_after,
  field_after, increments,
}

pub record Memory (fl : Floats) : Type 0 where
  pub texts : String → Option String
  pub hashes : String → Dict String
  pub lists : String → List (Value fl)

abbrev merge : Dict String → Dict String → Dict String
merge [] d = d
merge ((k, v) ∷ m) d = insert k v (merge m d)

lookup-merge :
    (f : String) (m d : Dict String)
    → lookup f (merge m d) ≡ (elim (lookup f m) [ none ↦ lookup f d | some v ↦ some v ])
lookup-merge f [] d = refl
lookup-merge f ((k, v) ∷ m) d =
    rw (lookup-insert f k v (merge m d), lookup-merge f m d)
      (elim (Bool-cases (f =ˢ k)) [ inl on ↦ rw on refl | inr off ↦ rw off refl ])

-- The reply of HINCRBY on a field: 1 where there is none, an error where it holds no integer.
abbrev incremented : Option String → Option ℤ
incremented none = some (pos 1)
incremented (some s) = elim (parse_int s) [ none ↦ none | some n ↦ some (n +ℤ pos 1) ]

abbrev bump : String → Dict String → Option ℤ → Dict String
bump g d none = d
bump g d (some n) = insert g (show_int n) d

bump-lookup :
    (f g : String) (d : Dict String)
    → (f =ˢ g) ≡ false
    → (o : Option ℤ) → lookup f (bump g d o) ≡ lookup f d
bump-lookup f g d e none = refl
bump-lookup f g d e (some n) = rw (lookup-insert f g (show_int n) d, e) refl

abbrev hash_after : {fl : Floats} → Command fl → String → Dict String → Dict String
hash_after (set j v) k d = if k =ˢ j then [] else d
hash_after (set_ex j v ttl) k d = if k =ˢ j then [] else d
hash_after (delete j) k d = if k =ˢ j then [] else d
hash_after (hset j m) k d = if k =ˢ j then merge m d else d
hash_after (hincr j f) k d = if k =ˢ j then bump f d (incremented (lookup f d)) else d
hash_after _ k d = d

abbrev is_some : Option String → Bool
is_some none = false
is_some (some s) = true

abbrev is_filled : Dict String → Bool
is_filled [] = false
is_filled (e ∷ d) = true

abbrev not_empty {ℓ} : {A : Type ℓ} → List A → Bool
not_empty [] = false
not_empty (e ∷ d) = true

abbrev bump_text : Option ℤ → Option String → Option String
bump_text none old = old
bump_text (some n) old = some (show_int n)

abbrev memory_text_after : {fl : Floats} → Command fl → String → Option String → Option String
memory_text_after (incr j) k old = if k =ˢ j then bump_text (incremented old) old else old
memory_text_after c k old = text_after c k old

abbrev pub memory : (fl : Floats) → Redis fl
memory fl = record {
  S = Memory fl;
  text_at = λ k s. s.texts k;
  exists = λ k s. is_some (s.texts k) || is_filled (s.hashes k) || not_empty (s.lists k);
  hash_at = λ k s. s.hashes k;
  list_at = λ k s. s.lists k;
  count_reply = λ k s. incremented (s.texts k);
  incr_reply = λ k f s. incremented (lookup f (s.hashes k));
  run = λ c s. record {
    texts = λ k. memory_text_after c k (s.texts k);
    lists = λ k. list_after c k (s.lists k);
    hashes = λ k. hash_after c k (s.hashes k);
  };
}

pos_suc : (n : ℕ) → pos n +ℤ pos 1 ≡ pos (n + 1)
unfolding ◌+ℤ◌
pos_suc n = ground arith

field_run :
    {fl : Floats} (c : Command fl) (k f : String) (s : Memory fl)
    → increments c k f ≡ false
    → lookup f (hash_after c k (s.hashes k)) ≡ field_after c k f (lookup f (s.hashes k))
field_run (set j v) k f s e = ground arith
field_run (set_ex j v ttl) k f s e = ground arith
field_run (delete j) k f s e = ground arith
field_run (hset j m) k f s e = elim (Bool-cases (k =ˢ j)) [
  | inl on ↦ rw on (lookup-merge f m (s.hashes k))
  | inr off ↦ rw off refl
]
field_run (hincr j g) k f s e = elim (Bool-cases (k =ˢ j)) [
  | inl on ↦ rw on (bump-lookup f g (s.hashes k) (rw on at e) (incremented (lookup g (s.hashes k))))
  | inr off ↦ rw off refl
]
field_run (rpush j v) k f s e = refl
field_run (ltrim j n) k f s e = refl
field_run (incr j) k f s e = refl
field_run (expire j n) k f s e = refl
field_run (xadd j d) k f s e = refl
field_run (xack j g i) k f s e = refl
field_run (audit j d) k f s e = refl
field_run (risk_event j) k f s e = refl
field_run (upsert j d) k f s e = refl
field_run (mark_executed j) k f s e = refl
field_run (configure j d) k f s e = refl

text_run :
    {fl : Floats} (c : Command fl) (k : String) (old : Option String)
    → counts c k ≡ false
    → memory_text_after c k old ≡ text_after c k old
text_run (set j v) k old e = refl
text_run (set_ex j v ttl) k old e = refl
text_run (delete j) k old e = refl
text_run (hset j m) k old e = refl
text_run (hincr j g) k old e = refl
text_run (rpush j v) k old e = refl
text_run (ltrim j n) k old e = refl
text_run (incr j) k old e = rw (e, text_after) refl
text_run (expire j n) k old e = refl
text_run (xadd j d) k old e = refl
text_run (xack j g i) k old e = refl
text_run (audit j d) k old e = refl
text_run (risk_event j) k old e = refl
text_run (upsert j d) k old e = refl
text_run (mark_executed j) k old e = refl
text_run (configure j d) k old e = refl

count_run :
    (fl : Floats) (k : String) (old : Option String) (n : ℕ)
    → (old ≡ none × n ≡ 0) ⊎ (old ≡ some (show_int (pos n)))
    → (incremented old ≡ some (pos (n + 1)))
      × (memory_text_after {fl = fl} (incr k) k old ≡ some (show_int (pos (n + 1))))
count_run fl k old n h =
    let known : incremented old ≡ some (pos (n + 1)) = elim h [
      | inl missing ↦ rw (missing.0, missing.1, incremented) refl
      | inr found ↦ rw (found, incremented, parse-show_int n) (ap some (pos_suc n))
    ] in
    let same : (k =ˢ k) ≡ true = (eq_iff k k).1 refl in (known, rw (same, known) refl)

incr_run :
    (fl : Floats) (k f : String) (s : Memory fl) (n : ℕ)
    → lookup f (s.hashes k) ≡ some (show_int (pos n))
    → (incremented (lookup f (s.hashes k)) ≡ some (pos (n + 1)))
      × (lookup f (hash_after {fl = fl} (hincr k f) k (s.hashes k)) ≡ some (show_int (pos (n + 1))))
incr_run fl k f s n h =
    let known : incremented (lookup f (s.hashes k)) ≡ some (pos (n + 1)) =
      rw (h, incremented, parse-show_int n) (ap some (pos_suc n)) in
    let same : (k =ˢ k) ≡ true = (eq_iff k k).1 refl in
    let here : (f =ˢ f) ≡ true = (eq_iff f f).1 refl in
    (known, rw (same, known, lookup-insert f f (show_int (pos (n + 1))) (s.hashes k), here) refl)

pub memory-IsServer : (fl : Floats) → IsServer (memory fl)
memory-IsServer fl = record {
  text-run = λ c k s e. text_run c k (s.texts k) e;
  list-run = λ c k s. refl;
  count-run = λ k s n. count_run fl k (s.texts k) n;
  field-run = field_run;
  incr-run = incr_run fl;
}
