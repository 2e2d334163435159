-- ===== src/Research/Promotion/Gates.antt =====
-- What a promotion takes, and what it changes.
use sentum.Prelude.{
  ℕ, ◌≤◌, ◌≡◌, ◌≢◌, refl, ap, ◌∙◌, ◌⊎◌, inl, inr, String, true, false, not, ◌&&◌, Option, none,
  some, [], ◌∷◌, if◌then◌else◌, arith, eq_iff, if-elim,
}
use sentum.Prelude.Dict.{Dict, lookup, str_eq}
use sentum.Float.{Double, lt, gt, nought, is_finite}
use sentum.Order.Manager.{Result, ok, throw, failed}
use sentum.Research.Promotion.{
  Stage, research, shadow, paper, testnet, stage_name, parse_stage, valid_transition, is_research,
  PromotionPolicy, PromotionEvent, StageEvidence, ModelRow, Registry, set_stage, passes_policy,
  stage_of_row, stage_in, latest_evidence, record_event, after, confirmation_text, Promotion,
  settle, promote_from, promote,
}

-- Reading the name of a stage gives the stage back.
pub parse_stage-stage_name : (s : Stage) → parse_stage (stage_name s) ≡ ok s
unfolding parse_stage stage_name
parse_stage-stage_name research = refl
parse_stage-stage_name shadow = refl
parse_stage-stage_name paper = refl
parse_stage-stage_name testnet = refl

pub name_of_parse : (value : String) (s : Stage) → parse_stage value ≡ ok s → value ≡ stage_name s
unfolding parse_stage stage_name
name_of_parse value s h = ground (
  arith,
  eq_iff value "research",
  eq_iff value "shadow",
  eq_iff value "paper",
  eq_iff value "testnet",
)

-- What an update of a row does to the answer of a query.
abbrev pub restaged : String → ℕ → Option ModelRow → Option ModelRow
restaged value now none = none
restaged value now (some row) = some (record row { stage = value; updated_at_ms = now })

pub lookup-set_stage :
    (model_id value : String) (now : ℕ) (models : Dict ModelRow) (wanted : String)
    → lookup wanted (set_stage model_id value now models) ≡ (
        if str_eq model_id wanted
        then restaged value now (lookup wanted models)
        else lookup wanted models)
unfolding lookup set_stage
lookup-set_stage model_id value now [] wanted = ground arith
lookup-set_stage model_id value now ((key, row) ∷ rest) wanted = ground (
  arith,
  lookup-set_stage model_id value now rest wanted,
  eq_iff key model_id,
  eq_iff key wanted,
  eq_iff model_id wanted,
)

named : (s : Stage) → str_eq (stage_name s) "" ≡ false
unfolding stage_name
named research = refl
named shadow = refl
named paper = refl
named testnet = refl

stage_of_row-restaged :
    (model_id : String) (s : Stage) (now : ℕ) (found : Option ModelRow) (value : String)
    → stage_of_row model_id found ≡ ok value
    → stage_of_row model_id (restaged (stage_name s) now found) ≡ ok (stage_name s)
unfolding stage_of_row
stage_of_row-restaged model_id s now none value h = absurd (ground arith)
stage_of_row-restaged model_id s now (some row) value h = rw (named s) refl

module _ {W : Type 0} ⦃d : Double W⦄ where
  -- The gates of the policy, one by one.
  pub record Passes (e : StageEvidence W) (p : PromotionPolicy W) : Type 0 where
    pub enough : p.min_trades ≤ e.trades
    pub profitable : lt e.net_profit p.min_net_profit ≡ false
    pub bounded : is_finite e.profit_factor ≡ true
    pub factor : lt e.profit_factor p.min_profit_factor ≡ false
    pub wins : lt e.win_rate p.min_win_rate ≡ false
    pub steady : lt e.sharpe p.min_sharpe ≡ false
    pub shallow : (gt p.max_drawdown nought && gt e.max_drawdown p.max_drawdown) ≡ false

  passes_policy-Passes :
      (e : StageEvidence W) (p : PromotionPolicy W) → (passes_policy e p).0 ≡ true → Passes e p
  unfolding passes_policy
  passes_policy-Passes e p h = ground arith

  -- A successful promotion from `r` to `r'`.
  pub record Promoted (r : Registry W) (p : Promotion W) (r' : Registry W) : Type 0 where
    pub current : Stage
    pub evidence : StageEvidence W
    pub stood : stage_in r p.model.model_id ≡ ok (stage_name current)
    pub step : valid_transition current p.target ≡ true
    pub confirmed : str_eq p.confirmation confirmation_text ≡ true
    pub shown : latest_evidence r p.model.model_id (stage_name current) ≡ ok evidence
    pub passed : Passes evidence p.model.policy
    pub logged :
        r'.promotion_events
        ≡ (record_event r p.model.model_id current p.target true
            (passes_policy evidence p.model.policy).1
            p.confirmation
            p.now).promotion_events
    pub moved : stage_in r' p.model.model_id ≡ ok (stage_name p.target)
    pub others : (j : String) → p.model.model_id ≢ j → lookup j r'.models ≡ lookup j r.models

  -- How a promotion ends.
  abbrev pub Ends : Registry W → Promotion W → Registry W × Result (Unit {0}) → Type 0
  Ends r p (r', result) =
      ((result ≡ ok tt) × Promoted r p r')
      ⊎ ((failed result ≡ true)
          × (r'.models ≡ r.models)
          × ((r'.promotion_events ≡ r.promotion_events)
              ⊎ ((event : PromotionEvent) × (r'.promotion_events ≡ event ∷ r.promotion_events))))

  module _ (r : Registry W) (p : Promotion W) where
    after_ends :
        {A : Type 0} (m : Result A) (next : A → Registry W × Result (Unit {0}))
        → ((a : A) → m ≡ ok a → Ends r p (next a))
        → Ends r p (after r m next)
    after_ends (throw e) next each = inr (refl, refl, inl refl)
    after_ends (ok a) next each = each a refl

    moved_row :
        (current : Stage)
        → stage_in r p.model.model_id ≡ ok (stage_name current)
        → stage_of_row p.model.model_id (
            lookup p.model.model_id
              (set_stage p.model.model_id (stage_name p.target) p.now r.models))
          ≡ ok (stage_name p.target)
    unfolding stage_in
    moved_row current stood =
        rw
          (
            lookup-set_stage p.model.model_id (stage_name p.target) p.now r.models p.model.model_id,
            (eq_iff p.model.model_id p.model.model_id).1 refl,
          )
          (stage_of_row-restaged p.model.model_id p.target p.now _ _ stood)

    other_rows :
        (j : String)
        → p.model.model_id ≢ j
        → lookup j (set_stage p.model.model_id (stage_name p.target) p.now r.models)
          ≡ lookup j r.models
    other_rows j apart = ground (
      arith,
      lookup-set_stage p.model.model_id (stage_name p.target) p.now r.models j,
      eq_iff p.model.model_id j,
    )

    module _ (current : Stage) (stood : stage_in r p.model.model_id ≡ ok (stage_name current)) where
      settled :
          (e : StageEvidence W)
          → valid_transition current p.target ≡ true
          → str_eq p.confirmation confirmation_text ≡ true
          → latest_evidence r p.model.model_id (stage_name current) ≡ ok e
          → Ends r p (settle r p current (passes_policy e p.model.policy))
      unfolding settle record_event stage_in stage_of_row
      settled e step confirmed shown =
          let verdict = passes_policy e p.model.policy in
          if-elim (Ends r p) (not p.recorded) (λ _. inr (refl, refl, inl refl))
            (λ _.
              if-elim (Ends r p) (not verdict.0) (λ _. inr (refl, refl, inr (_, refl)))
                (λ approved.
                  if-elim (Ends r p) (not p.updated) (λ _. inr (refl, refl, inr (_, refl)))
                    (λ _. inl (
                      refl,
                      record {
                        current = current;
                        evidence = e;
                        stood = stood;
                        step = step;
                        confirmed = confirmed;
                        shown = shown;
                        passed = passes_policy-Passes e p.model.policy (ground arith);
                        logged = ground arith;
                        moved = moved_row current stood;
                        others = other_rows;
                      },
                    ))))

      promoted_from : Ends r p (promote_from r p current)
      unfolding promote_from
      promoted_from =
          if-elim (Ends r p) (not (valid_transition current p.target))
            (λ _. inr (refl, refl, inl refl))
            (λ step.
              if-elim (Ends r p) (not (str_eq p.confirmation confirmation_text))
                (λ _. inr (refl, refl, inl refl))
                (λ confirmed.
                  after_ends (latest_evidence r p.model.model_id (stage_name current)) _
                    (λ e shown. settled e (ground arith) (ground arith) shown)))

  -- A promotion succeeds only for a model that stands one stage below the target, with the operator's exact
  -- confirmation and with newest evidence of that stage that passes every gate; it is logged, moves the model
  -- to the target and leaves every other model. A promotion that throws leaves all models as they are, and logs at
  -- most one event.
  pub promote_cases : (r : Registry W) (p : Promotion W) → Ends r p (promote r p)
  unfolding promote
  promote_cases r p =
      if-elim (Ends r p) (is_research p.target) (λ _. inr (refl, refl, inl refl))
        (λ _. after_ends r p (stage_in r p.model.model_id) _ (λ value found.
          after_ends r p (parse_stage value) _ (λ current parsed.
            promoted_from r p current (found ∙ ap ok (name_of_parse value current parsed)))))
