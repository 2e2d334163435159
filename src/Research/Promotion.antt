-- ===== src/Research/Promotion.antt =====
-- src/sentum/research/ModelPromotion.hpp: the stages of a model and the registry that moves it from one to
-- the next. The three SQL tables are a dictionary by key and two lists, newest row first; whether a statement
-- of SQLite succeeds is an argument, and one that fails throws and changes nothing. JSON texts are texts.
pub mod Gates
pub mod History
use sentum.Prelude.{
  ℕ, String, Bool, true, false, not, ◌&&◌, ◌||◌, Option, none, some, List, [], ◌∷◌, if◌then◌else◌,
  ltb,
}
use sentum.Prelude.Dict.{Dict, lookup, insert, str_eq}
use sentum.Prelude.Text.{concat}
use sentum.Float.{Double, lt, gt, nought, is_finite}
use sentum.Order.Manager.{Result, ok, throw, runtime_error, failure}
use sentum.Backtest.{BacktestMetrics}

pub data Stage : Type 0 where
  research shadow paper testnet : Stage

unfoldable pub stage_name : Stage → String
stage_name research = "research"
stage_name shadow = "shadow"
stage_name paper = "paper"
stage_name testnet = "testnet"

unfoldable pub parse_stage : String → Result Stage
parse_stage value =
    if str_eq value "research"
    then ok research
    else if str_eq value "shadow"
    then ok shadow
    else if str_eq value "paper"
    then ok paper
    else if str_eq value "testnet"
    then ok testnet
    else throw (runtime_error (concat "Unsupported model stage: " value))

unfoldable pub valid_transition : Stage → Stage → Bool
valid_transition research shadow = true
valid_transition shadow paper = true
valid_transition paper testnet = true
valid_transition from to = false

abbrev pub is_research : Stage → Bool
is_research research = true
is_research shadow = false
is_research paper = false
is_research testnet = false

pub record PromotionPolicy (W : Type 0) : Type 0 where
  pub min_trades : ℕ
  pub min_net_profit : W
  pub min_profit_factor : W
  pub min_win_rate : W
  pub min_sharpe : W
  pub max_drawdown : W

pub record StageEvidence (W : Type 0) : Type 0 where
  pub stage : String
  pub started_at_ms : ℕ
  pub finished_at_ms : ℕ
  pub trades : ℕ
  pub net_profit : W
  pub max_drawdown : W
  pub profit_factor : W
  pub win_rate : W
  pub expectancy : W
  pub sharpe : W
  pub sortino : W
  pub artifact : String

-- Less `risk_config` and `strategy`, which the registry does not read.
pub record ModelDefinition (W : Type 0) : Type 0 where
  pub model_id : String
  pub name : String
  pub symbol : String
  pub source_experiment_run : String
  pub source_git_commit : String
  pub source_config_sha256 : String
  pub policy : PromotionPolicy W

-- A row of the table `models`, less its key.
pub record ModelRow : Type 0 where
  pub name : String
  pub symbol : String
  pub stage : String
  pub source_experiment_run : String
  pub source_git_commit : String
  pub source_config_sha256 : String
  pub definition_json : String
  pub created_at_ms : ℕ
  pub updated_at_ms : ℕ

-- A row of the table `promotion_events`.
pub record PromotionEvent : Type 0 where
  pub model_id : String
  pub from_stage : String
  pub to_stage : String
  pub approved : Bool
  pub reason : String
  pub operator_confirmation : String
  pub created_at_ms : ℕ

pub record Registry (W : Type 0) : Type 0 where
  pub models : Dict ModelRow
  pub stage_evidence : List (String × StageEvidence W)
  pub promotion_events : List PromotionEvent

-- `UPDATE models SET stage=?,updated_at_ms=? WHERE model_id=?`.
unfoldable pub set_stage : String → String → ℕ → Dict ModelRow → Dict ModelRow
set_stage model_id value now [] = []
set_stage model_id value now ((key, row) ∷ rest) =
    let others = set_stage model_id value now rest in
    if str_eq key model_id
    then (key, record row { stage = value; updated_at_ms = now }) ∷ others
    else (key, row) ∷ others

module _ {W : Type 0} ⦃d : Double W⦄ where
  abbrev pub new_policy : PromotionPolicy W
  new_policy = record {
    min_trades = 30;
    min_net_profit = nought;
    min_profit_factor = d.lit 110 2;
    min_win_rate = d.lit 45 0;
    min_sharpe = d.lit 50 2;
    max_drawdown = nought;
  }

  unfoldable pub evidence_from_metrics :
      String → BacktestMetrics W → ℕ → ℕ → String → StageEvidence W
  evidence_from_metrics stage m start finish artifact = record {
    stage = stage;
    started_at_ms = start;
    finished_at_ms = finish;
    trades = m.trades;
    net_profit = m.net_profit;
    max_drawdown = m.max_drawdown;
    profit_factor = m.profit_factor;
    win_rate = m.win_rate;
    expectancy = m.expectancy;
    sharpe = m.sharpe;
    sortino = m.sortino;
    artifact = artifact;
  }

  -- The result with `reason`.
  unfoldable pub passes_policy : StageEvidence W → PromotionPolicy W → Bool × String
  passes_policy e p =
      if ltb e.trades p.min_trades
      then (false, "insufficient trades")
      else if lt e.net_profit p.min_net_profit
      then (false, "net profit below threshold")
      else if not (is_finite e.profit_factor) || lt e.profit_factor p.min_profit_factor
      then (false, "profit factor below threshold")
      else if lt e.win_rate p.min_win_rate
      then (false, "win rate below threshold")
      else if lt e.sharpe p.min_sharpe
      then (false, "Sharpe below threshold")
      else if gt p.max_drawdown nought && gt e.max_drawdown p.max_drawdown
      then (false, "drawdown above threshold")
      else (true, "promotion gates passed")

-- `stage` from the answer of the query on; an empty text counts as no model.
unfoldable pub stage_of_row : String → Option ModelRow → Result String
stage_of_row model_id none = throw (runtime_error (concat "Unknown model: " model_id))
stage_of_row model_id (some row) =
    if str_eq row.stage ""
    then throw (runtime_error (concat "Unknown model: " model_id))
    else ok row.stage

module _ {W : Type 0} where
  abbrev pub new_registry : Registry W
  new_registry = record { models = []; stage_evidence = []; promotion_events = [] }

  -- The row that `INSERT ... ON CONFLICT(model_id) DO UPDATE` leaves: the stage and the time of creation of
  -- a model that is there stay.
  unfoldable pub registered_row : Option ModelRow → ModelDefinition W → String → ℕ → ModelRow
  registered_row none m definition_json now = record {
    name = m.name;
    symbol = m.symbol;
    stage = "research";
    source_experiment_run = m.source_experiment_run;
    source_git_commit = m.source_git_commit;
    source_config_sha256 = m.source_config_sha256;
    definition_json = definition_json;
    created_at_ms = now;
    updated_at_ms = now;
  }
  registered_row (some row) m definition_json now = record row {
    name = m.name;
    symbol = m.symbol;
    source_experiment_run = m.source_experiment_run;
    source_git_commit = m.source_git_commit;
    source_config_sha256 = m.source_config_sha256;
    definition_json = definition_json;
    updated_at_ms = now;
  }

  unfoldable pub register_model :
      Registry W → ModelDefinition W → String → ℕ → Bool → Registry W × Result (Unit {0})
  register_model r m definition_json now done =
      if done
      then (
        record r {
          models =
              insert m.model_id (registered_row (lookup m.model_id r.models) m definition_json now)
                r.models;
        },
        ok tt,
      )
      else (r, throw (failure "sqlite"))

  unfoldable pub stage_in : Registry W → String → Result String
  stage_in r model_id = stage_of_row model_id (lookup model_id r.models)

  unfoldable pub save_evidence :
      Registry W → String → StageEvidence W → Bool → Registry W × Result (Unit {0})
  save_evidence r model_id e done =
      if done
      then (record r { stage_evidence = (model_id, e) ∷ r.stage_evidence }, ok tt)
      else (r, throw (failure "sqlite"))

  -- `WHERE model_id=? AND stage=? ORDER BY id DESC LIMIT 1`.
  unfoldable pub newest_evidence :
      List (String × StageEvidence W) → String → String → Result (StageEvidence W)
  newest_evidence [] model_id stage = throw (runtime_error (concat "No stage evidence for " stage))
  newest_evidence ((key, e) ∷ rows) model_id stage =
      let older = newest_evidence rows model_id stage in
      if str_eq key model_id && str_eq e.stage stage then ok e else older

  unfoldable pub latest_evidence : Registry W → String → String → Result (StageEvidence W)
  latest_evidence r model_id stage = newest_evidence r.stage_evidence model_id stage

  unfoldable pub record_event :
      Registry W → String → Stage → Stage → Bool → String → String → ℕ → Registry W
  record_event r model_id from to approved reason confirmation now = record r {
    promotion_events =
        record {
          model_id = model_id;
          from_stage = stage_name from;
          to_stage = stage_name to;
          approved = approved;
          reason = reason;
          operator_confirmation = confirmation;
          created_at_ms = now;
        }
        ∷ r.promotion_events;
  }

-- The rest of a call after a step that may throw.
abbrev pub after {ℓ ℓ'} :
    {A : Type ℓ} {S : Type ℓ'} → S → Result A → (A → S × Result (Unit {0})) → S × Result (Unit {0})
after s (throw e) next = (s, throw e)
after s (ok a) next = next a

abbrev pub confirmation_text : String
confirmation_text = "I_APPROVE_MODEL_PROMOTION"

-- The arguments of `promote`, the time, and whether its two statements succeed.
pub record Promotion (W : Type 0) : Type 0 where
  pub model : ModelDefinition W
  pub target : Stage
  pub confirmation : String
  pub now : ℕ
  pub recorded : Bool
  pub updated : Bool

module _ {W : Type 0} ⦃d : Double W⦄ where
  unfoldable pub settle :
      Registry W → Promotion W → Stage → Bool × String → Registry W × Result (Unit {0})
  settle r p current (approved, reason) =
      let logged =
        record_event r p.model.model_id current p.target approved reason p.confirmation p.now in
      if not p.recorded
      then (r, throw (failure "sqlite"))
      else if not approved
      then (logged, throw (runtime_error (concat "Promotion blocked: " reason)))
      else if not p.updated
      then (logged, throw (failure "sqlite"))
      else (
        record logged {
          models = set_stage p.model.model_id (stage_name p.target) p.now logged.models;
        },
        ok tt,
      )

  unfoldable pub promote_from : Registry W → Promotion W → Stage → Registry W × Result (Unit {0})
  promote_from r p current =
      if not (valid_transition current p.target)
      then (
        r,
        throw (
            runtime_error (
              concat "Invalid promotion transition: "
                (concat (stage_name current) (concat " -> " (stage_name p.target))))),
      )
      else if not (str_eq p.confirmation confirmation_text)
      then (r, throw (runtime_error "Explicit operator confirmation required"))
      else after r (latest_evidence r p.model.model_id (stage_name current))
          (λ e. settle r p current (passes_policy e p.model.policy))

  unfoldable pub promote : Registry W → Promotion W → Registry W × Result (Unit {0})
  promote r p =
      if is_research p.target
      then (r, throw (runtime_error "Cannot promote to research"))
      else after r (stage_in r p.model.model_id)
          (λ value. after r (parse_stage value) (λ current. promote_from r p current))
