-- ===== src/Executor/Outcome/Apart.antt =====
-- services/executor/app/consumer.py, _record_outcome: the statistics stand under keys of their own, so
-- writing them leaves other keys alone.
use Prim.Native.String.{String, ◌++◌}
use messiah_fx_prod.Prelude.{ℕ, true, false, ◌≡◌, refl, Option, List, ◌=ˢ◌}
use messiah_fx_prod.Prelude.Text.Affixes.{parts, parts_ne}
use messiah_fx_prod.Numbers.{Floats}
use messiah_fx_prod.Payload.{Value}
use messiah_fx_prod.RedisKeys
use messiah_fx_prod.Redis.{
  Redis, IsServer, Command, set_ex, delete, rpush, counts, text_after, list_after,
}
use messiah_fx_prod.Executor.Outcome.Keys.{
  rotation_preferred, edge_win_rate_key, edge_decayed_key, avg_win_key, avg_loss_key, cum_pnl_key,
  peak_pnl_key, drawdown_key,
}

-- A command that changes neither the text nor the list under a key.
pub record Leaves {fl : Floats} (c : Command fl) (k : String) : Type 0 where
  pub no_count : counts c k ≡ false
  pub same_text : (old : Option String) → text_after c k old ≡ old
  pub same_list : (old : List (Value fl)) → list_after c k old ≡ old

-- The commands that write the statistics of a strategy other than its counter, its flag of
-- degradation and its window.
pub data Statistic (fl : Floats) (strategy : String) : Command fl → Type 0 where
  prefers : (v : String) (n : ℕ) → Statistic fl strategy (set_ex rotation_preferred v n)
  notifies : (v : Value fl) → Statistic fl strategy (rpush RedisKeys.notification_queue v)
  win_rate : (v : String) (n : ℕ) → Statistic fl strategy (set_ex (edge_win_rate_key strategy) v n)
  decays : (v : String) (n : ℕ) → Statistic fl strategy (set_ex (edge_decayed_key strategy) v n)
  recovers : Statistic fl strategy (delete (edge_decayed_key strategy))
  avg_win : (v : String) (n : ℕ) → Statistic fl strategy (set_ex (avg_win_key strategy) v n)
  avg_loss : (v : String) (n : ℕ) → Statistic fl strategy (set_ex (avg_loss_key strategy) v n)
  cum_pnl : (v : String) (n : ℕ) → Statistic fl strategy (set_ex (cum_pnl_key strategy) v n)
  peak_pnl : (v : String) (n : ℕ) → Statistic fl strategy (set_ex (peak_pnl_key strategy) v n)
  drawdown : (v : String) (n : ℕ) → Statistic fl strategy (set_ex (drawdown_key strategy) v n)

-- No key of theirs begins like a text.
pub record IsApart (p : String) : Type 0 where
  pub not_preferred : parts p rotation_preferred ≡ true
  pub not_queue : parts p RedisKeys.notification_queue ≡ true
  pub not_win_rate : parts p "edge:win_rate:" ≡ true
  pub not_decayed : parts p "edge:decayed:" ≡ true
  pub not_avg_win : parts p "strategy:avg_win:" ≡ true
  pub not_avg_loss : parts p "strategy:avg_loss:" ≡ true
  pub not_cum_pnl : parts p "strategy:cum_pnl:" ≡ true
  pub not_peak_pnl : parts p "strategy:peak_pnl:" ≡ true
  pub not_drawdown : parts p "strategy:drawdown_pct:" ≡ true

module _ {fl : Floats} where
  module _ (j k : String) (other : (k =ˢ j) ≡ false) where
    pub set_ex-Leaves : (v : String) (n : ℕ) → Leaves {fl = fl} (set_ex j v n) k
    set_ex-Leaves v n = record {
      no_count = refl;
      same_text = λ old. rw other;
      same_list = λ old. rw other;
    }

    pub delete-Leaves : Leaves {fl = fl} (delete j) k
    delete-Leaves = record {
      no_count = refl;
      same_text = λ old. rw other;
      same_list = λ old. rw other;
    }

    pub rpush-Leaves : (v : Value fl) → Leaves (rpush j v) k
    rpush-Leaves v = record {
      no_count = refl;
      same_text = λ old. refl;
      same_list = λ old. rw other;
    }

  pub Statistic-Leaves :
      (strategy p t : String)
      → IsApart p
      → (c : Command fl) → Statistic fl strategy c
      → Leaves c (p ++ t)
  Statistic-Leaves strategy p t h c (prefers v n) =
      set_ex-Leaves _ _ (parts_ne p rotation_preferred t "" h.not_preferred) v n
  Statistic-Leaves strategy p t h c (notifies v) =
      rpush-Leaves _ _ (parts_ne p RedisKeys.notification_queue t "" h.not_queue) v
  Statistic-Leaves strategy p t h c (win_rate v n) =
      set_ex-Leaves _ _ (parts_ne p "edge:win_rate:" t strategy h.not_win_rate) v n
  Statistic-Leaves strategy p t h c (decays v n) =
      set_ex-Leaves _ _ (parts_ne p "edge:decayed:" t strategy h.not_decayed) v n
  Statistic-Leaves strategy p t h c recovers =
      delete-Leaves _ _ (parts_ne p "edge:decayed:" t strategy h.not_decayed)
  Statistic-Leaves strategy p t h c (avg_win v n) =
      set_ex-Leaves _ _ (parts_ne p "strategy:avg_win:" t strategy h.not_avg_win) v n
  Statistic-Leaves strategy p t h c (avg_loss v n) =
      set_ex-Leaves _ _ (parts_ne p "strategy:avg_loss:" t strategy h.not_avg_loss) v n
  Statistic-Leaves strategy p t h c (cum_pnl v n) =
      set_ex-Leaves _ _ (parts_ne p "strategy:cum_pnl:" t strategy h.not_cum_pnl) v n
  Statistic-Leaves strategy p t h c (peak_pnl v n) =
      set_ex-Leaves _ _ (parts_ne p "strategy:peak_pnl:" t strategy h.not_peak_pnl) v n
  Statistic-Leaves strategy p t h c (drawdown v n) =
      set_ex-Leaves _ _ (parts_ne p "strategy:drawdown_pct:" t strategy h.not_drawdown) v n

  module _ {r : Redis fl} (laws : IsServer r) where
    pub Leaves-run :
        (c : Command fl) (k : String)
        → Leaves c k
        → (s : r.S)
        → (r.text_at k (r.run c s) ≡ r.text_at k s) × (r.list_at k (r.run c s) ≡ r.list_at k s)
    Leaves-run c k h s = (
      rw (laws.text-run c k s h.no_count) (h.same_text (r.text_at k s)),
      rw (laws.list-run c k s) (h.same_list (r.list_at k s)),
    )
