-- ===== src/Research/Promotion/History.antt =====
-- What the registry's log shows of every model, whatever was called before.
use sentum.Prelude.{
  ℕ, ◌≡◌, ◌≢◌, refl, sym, ap, ◌∙◌, inl, inr, String, Bool, true, false, ◌&&◌, ◌||◌, Option, none,
  some, List, [], ◌∷◌, Bool-cases, arith, eq_iff, eq_refl,
}
use sentum.Prelude.Dict.{lookup, str_eq, lookup-insert}
use sentum.Float.{Double}
use sentum.Order.Manager.{ok}
use sentum.Research.Promotion.{
  Stage, research, shadow, paper, testnet, stage_name, parse_stage, valid_transition, StageEvidence,
  ModelDefinition, ModelRow, PromotionEvent, Registry, new_registry, registered_row, register_model,
  save_evidence, record_event, confirmation_text, Promotion, promote, stage_in, stage_of_row,
  passes_policy,
}
use sentum.Research.Promotion.Gates.{parse_stage-stage_name, Promoted, promote_cases}

-- The log holds an approval, confirmed by the operator, of the move of a model between two stages.
abbrev pub approved_in : List PromotionEvent → String → Stage → Stage → Bool
approved_in [] model_id from to = false
approved_in (event ∷ events) model_id from to =
    (str_eq event.model_id model_id
      && (str_eq event.from_stage (stage_name from)
          && (str_eq event.to_stage (stage_name to)
              && (event.approved && str_eq event.operator_confirmation confirmation_text))))
    || approved_in events model_id from to

-- Every move on the way to the stage has such an approval.
abbrev pub way_approved : List PromotionEvent → String → Stage → Bool
way_approved events model_id research = true
way_approved events model_id shadow = approved_in events model_id research shadow
way_approved events model_id paper =
    approved_in events model_id shadow paper && approved_in events model_id research shadow
way_approved events model_id testnet =
    approved_in events model_id paper testnet
    && (approved_in events model_id shadow paper && approved_in events model_id research shadow)

-- A stored stage with its way approved.
abbrev pub Earned : List PromotionEvent → String → ModelRow → Type 0
Earned events model_id row =
    (s : Stage) × (row.stage ≡ stage_name s) × (way_approved events model_id s ≡ true)

-- A longer log approves no less.
longer :
    (event : PromotionEvent) (events : List PromotionEvent) (model_id : String) (s : Stage)
    → way_approved events model_id s ≡ true
    → way_approved (event ∷ events) model_id s ≡ true
longer event events model_id research h = refl
longer event events model_id shadow h = ground arith
longer event events model_id paper h = ground arith
longer event events model_id testnet h = ground arith

-- A logged approval extends the way by its step.
extended :
    (event : PromotionEvent) (events : List PromotionEvent) (model_id : String)
    (current target : Stage)
    → valid_transition current target ≡ true
    → approved_in (event ∷ []) model_id current target ≡ true
    → way_approved events model_id current ≡ true
    → way_approved (event ∷ events) model_id target ≡ true
unfolding valid_transition
extended event events model_id research shadow step new h = ground arith
extended event events model_id shadow paper step new h = ground arith
extended event events model_id paper testnet step new h = ground arith
extended event events model_id current target step new h = absurd (ground arith)

longer_Earned :
    (event : PromotionEvent) (events : List PromotionEvent) (model_id : String) (row : ModelRow)
    → Earned events model_id row
    → Earned (event ∷ events) model_id row
longer_Earned event events model_id row (s, named, way) =
    (s, named, longer event events model_id s way)

stage_name_inj : (s t : Stage) → stage_name s ≡ stage_name t → s ≡ t
stage_name_inj s t h =
    let both : ok s ≡ ok t =
      sym (parse_stage-stage_name s) ∙ ap parse_stage h ∙ parse_stage-stage_name t in
    cc

-- The row behind a stage that was found.
found_row :
    (model_id value : String) (found : Option ModelRow)
    → stage_of_row model_id found ≡ ok value
    → (row : ModelRow) × (found ≡ some row) × (row.stage ≡ value)
unfolding stage_of_row
found_row model_id value none h = absurd (ground arith)
found_row model_id value (some row) h = (row, refl, ground arith)

registered_Earned :
    {W : Type 0} (events : List PromotionEvent) (model_id : String) (found : Option ModelRow)
    (m : ModelDefinition W) (definition_json : String) (now : ℕ)
    → ((row : ModelRow) → found ≡ some row → Earned events model_id row)
    → Earned events model_id (registered_row found m definition_json now)
unfolding registered_row stage_name
registered_Earned events model_id none m definition_json now earned = (research, refl, refl)
registered_Earned events model_id (some row) m definition_json now earned = earned row refl

module _ {W : Type 0} ⦃d : Double W⦄ where
  -- A call of the registry, whether it throws or not.
  pub data Step : Registry W → Registry W → Type 0 where
    registered :
        (r : Registry W) (m : ModelDefinition W) (definition_json : String) (now : ℕ) (done : Bool)
        → Step r (register_model r m definition_json now done).0
    saved :
        (r : Registry W) (model_id : String) (e : StageEvidence W) (done : Bool)
        → Step r (save_evidence r model_id e done).0
    promoted : (r : Registry W) (p : Promotion W) → Step r (promote r p).0

  pub data Reach (r : Registry W) : Registry W → Type 0 where
    here : Reach r r
    next : {s t : Registry W} → Reach r s → Step s t → Reach r t

  abbrev AllEarned : Registry W → Type 0
  AllEarned r =
      (model_id : String) (row : ModelRow)
      → lookup model_id r.models ≡ some row
      → Earned r.promotion_events model_id row

  register_model-AllEarned :
      (r : Registry W) (m : ModelDefinition W) (definition_json : String) (now : ℕ) (done : Bool)
      → AllEarned r
      → AllEarned (register_model r m definition_json now done).0
  unfolding register_model
  register_model-AllEarned r m definition_json now false earned model_id row h =
      earned model_id row h
  register_model-AllEarned r m definition_json now true earned model_id row h =
      elim (Bool-cases (str_eq m.model_id model_id)) [
        | inl same ↦
            let found = lookup m.model_id r.models in
            let new = registered_row found m definition_json now in
            let is : new ≡ row = ground (arith, lookup-insert m.model_id model_id new r.models) in
            let there : m.model_id ≡ model_id = (eq_iff m.model_id model_id).0 same in
            rw (← is, ← there)
              (registered_Earned r.promotion_events m.model_id found m definition_json now
                (earned m.model_id))
        | inr other ↦ earned model_id row (
            ground (
              arith,
              lookup-insert m.model_id model_id
                  (registered_row (lookup m.model_id r.models) m definition_json now) r.models,
            ))
      ]

  module _ (r : Registry W) (p : Promotion W) (r' : Registry W) (earned : AllEarned r) where
    event_of : Promoted r p r' → PromotionEvent
    event_of moved = record {
      model_id = p.model.model_id;
      from_stage = stage_name moved.current;
      to_stage = stage_name p.target;
      approved = true;
      reason = (passes_policy moved.evidence p.model.policy).1;
      operator_confirmation = p.confirmation;
      created_at_ms = p.now;
    }

    row_after :
        Promoted r p r'
        → (row : ModelRow) → lookup p.model.model_id r'.models ≡ some row
        → Earned r'.promotion_events p.model.model_id row
    unfolding stage_in record_event event_of
    row_after moved row h =
        let id = p.model.model_id in
        let (old, found, named) = found_row id _ (lookup id r.models) moved.stood in
        let (s, is, way) = earned id old found in
        let from : s ≡ moved.current = stage_name_inj s moved.current (sym is ∙ named) in
        let (new, there, target_named) = found_row id _ (lookup id r'.models) moved.moved in
        let same : row ≡ new = ground arith in
        let head : approved_in (event_of moved ∷ []) id moved.current p.target ≡ true = ground (
          arith,
          eq_refl id,
          eq_refl (stage_name moved.current),
          eq_refl (stage_name p.target),
          moved.confirmed,
        ) in
        (
          p.target,
          rw same target_named,
          rw moved.logged (
              extended (event_of moved) r.promotion_events id moved.current p.target moved.step head
                (rw (← from) way)),
        )

    -- After a success.
    Promoted-AllEarned : Promoted r p r' → AllEarned r'
    unfolding stage_in record_event event_of
    Promoted-AllEarned moved model_id row h = elim (Bool-cases (str_eq p.model.model_id model_id)) [
      | inl same ↦
          rw (← (eq_iff p.model.model_id model_id).0 same)
            (row_after moved row (rw ((eq_iff p.model.model_id model_id).0 same) h))
      | inr other ↦
          let apart : p.model.model_id ≢ model_id =
            ground (arith, eq_iff p.model.model_id model_id) in
          rw moved.logged (
            longer_Earned (event_of moved) r.promotion_events model_id row
              (earned model_id row (sym (moved.others model_id apart) ∙ h)))
    ]

  promote-AllEarned : (r : Registry W) (p : Promotion W) → AllEarned r → AllEarned (promote r p).0
  promote-AllEarned r p earned = elim (promote_cases r p) [
    | inl (done, moved) ↦ Promoted-AllEarned r p (promote r p).0 earned moved
    | inr (thrown, kept, log) ↦ λ model_id row h.
        let before : Earned r.promotion_events model_id row =
          earned model_id row (ap (lookup model_id) (sym kept) ∙ h) in
        elim log [
          | inl same ↦ rw same before
          | inr (event, grew) ↦ rw grew (longer_Earned event r.promotion_events model_id row before)
        ]
  ]

  Step-AllEarned : {r s : Registry W} → Step r s → AllEarned r → AllEarned s
  unfolding save_evidence
  Step-AllEarned (registered r m definition_json now done) earned =
      register_model-AllEarned r m definition_json now done earned
  Step-AllEarned (saved r model_id e false) earned = earned
  Step-AllEarned (saved r model_id e true) earned = earned
  Step-AllEarned (promoted r p) earned = promote-AllEarned r p earned

  Reach-AllEarned : {r : Registry W} → Reach new_registry r → AllEarned r
  unfolding lookup
  Reach-AllEarned here = λ model_id row h. absurd (ground arith)
  Reach-AllEarned (next before step) = Step-AllEarned step (Reach-AllEarned before)

  -- Whatever is called on a new registry, and whether the calls throw or not, every model stands at one of the
  -- four stages, and the log holds an approval, confirmed by the operator, of every single move from research
  -- to there.
  pub Reach-Earned :
      (r : Registry W) (model_id : String) (row : ModelRow)
      → Reach new_registry r
      → lookup model_id r.models ≡ some row
      → Earned r.promotion_events model_id row
  Reach-Earned r model_id row reach h = Reach-AllEarned reach model_id row h
