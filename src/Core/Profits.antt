-- ===== src/Core/Profits.antt =====
-- The booking of profits, in exact fixed-point arithmetic.
use sentum.Prelude.{
  ℕ, ◌+◌, ◌≡◌, refl, sym, ap, ◌∙◌, String, Bool, true, false, not, ◌&&◌, Option, none, some, [],
  if◌then◌else◌, ◌==◌, arith, if-elim,
}
use sentum.Prelude.Dict.{str_eq}
use sentum.Prelude.Int.{ℤ, pos, pos_part, neg_part, ◌+ℤ◌, ◌-ℤ◌, int_laws}
use sentum.Float.{nought}
use sentum.Float.Fixed.{Fixed, fixed_double}
use sentum.Trader.Paper.{PaperAccount}
use sentum.Core.{
  Trader, ExecutionEngine, book, earn_all, book_final, stop_trader, start_trader_for, has_trader,
  position_open, applied, apply_runtime_control, account_in, main_step_in, main_step, MainPhase,
  controlling, booking, recording,
}

-- The profit that the trader has made and the account does not show.
abbrev pub unbooked_of : Fixed → Option (Trader Fixed) → Fixed
unbooked_of accounted none = pos 0
unbooked_of accounted (some t) = t.total_profit -ℤ accounted

pub plus_zero : (a : ℤ) → a +ℤ pos 0 ≡ a
plus_zero a = omega int_laws

-- What the main loop has booked, which it may be about to write down.
abbrev pub accounted_in : MainPhase Fixed → Fixed → Fixed
accounted_in controlling accounted = accounted
accounted_in booking accounted = accounted
accounted_in (recording total) accounted = total

abbrev pub is_recording : MainPhase Fixed → Bool
is_recording controlling = false
is_recording booking = false
is_recording (recording total) = true

pub accounted_lem :
    (phase : MainPhase Fixed) (accounted : Fixed)
    → is_recording phase ≡ false
    → accounted_in phase accounted ≡ accounted
accounted_lem controlling accounted h = refl
accounted_lem booking accounted h = refl
accounted_lem (recording total) accounted h = absurd (ground (arith, h))

module _ {J : Type 0} where
  abbrev pub unbooked : ExecutionEngine J Fixed → Fixed
  unbooked c = unbooked_of (accounted_in c.phase c.accounted_profit) c.trader

  abbrev pub worth : ExecutionEngine J Fixed → Fixed
  worth c = c.paper_account.equity +ℤ unbooked c

  pub book_equity :
      (c : ExecutionEngine J Fixed) (delta : Fixed)
      → (book c delta).equity ≡ c.paper_account.equity +ℤ delta
  unfolding book
  book_equity c delta =
      if-elim (λ (a : PaperAccount Fixed). a.equity ≡ c.paper_account.equity +ℤ delta)
        (not (fixed_double.eq delta nought)) (λ _. refl)
        (λ zero_delta.
          let parts : pos_part delta + 0 ≡ 0 + neg_part delta = ground arith in omega int_laws)

  final_worth :
      (c : ExecutionEngine J Fixed) (t : Option (Trader Fixed))
      → (book_final c t).paper_account.equity +ℤ pos 0
        ≡ c.paper_account.equity +ℤ unbooked_of c.accounted_profit t
  unfolding book_final
  final_worth c none = refl
  final_worth c (some t) =
      ap (λ e. e +ℤ pos 0) (book_equity c (t.total_profit -ℤ c.accounted_profit))
      ∙ plus_zero (c.paper_account.equity +ℤ (t.total_profit -ℤ c.accounted_profit))

  pub stop_trader_worth :
      (c : ExecutionEngine J Fixed)
      → is_recording c.phase ≡ false
      → worth (stop_trader c []) ≡ worth c
  unfolding stop_trader earn_all
  stop_trader_worth c h =
      final_worth c c.trader
      ∙ ap (λ a. c.paper_account.equity +ℤ unbooked_of a c.trader)
          (sym (accounted_lem c.phase c.accounted_profit h))

  stopped_worth :
      (c : ExecutionEngine J Fixed)
      → is_recording c.phase ≡ false
      → worth (if has_trader c.trader then stop_trader c [] else c) ≡ worth c
  stopped_worth c h =
      if-elim (λ (s : ExecutionEngine J Fixed). worth s ≡ worth c) (has_trader c.trader)
        (λ _. stop_trader_worth c h) (λ _. refl)

  final_phase :
      (c : ExecutionEngine J Fixed) (t : Option (Trader Fixed)) → (book_final c t).phase ≡ c.phase
  unfolding book_final
  final_phase c none = refl
  final_phase c (some t) = refl

  stopped_phase :
      (c : ExecutionEngine J Fixed)
      → (if has_trader c.trader then stop_trader c [] else c).phase ≡ c.phase
  unfolding stop_trader earn_all
  stopped_phase c =
      if-elim (λ (s : ExecutionEngine J Fixed). s.phase ≡ c.phase) (has_trader c.trader)
        (λ _. final_phase c c.trader) (λ _. refl)

  start_phase :
      (c : ExecutionEngine J Fixed) (symbol : String) (loads : Bool)
      → (start_trader_for c symbol loads).0.phase ≡ c.phase
  unfolding start_trader_for
  start_phase c symbol loads =
      if-elim (λ (o : ExecutionEngine J Fixed × Bool). o.0.phase ≡ c.phase) loads (λ _. refl)
        (λ _. refl)

  applied_phase :
      (generation : ℕ) (o : ExecutionEngine J Fixed × Bool)
      → (applied generation o).0.phase ≡ o.0.phase
  unfolding applied
  applied_phase generation (s, true) = refl
  applied_phase generation (s, false) = refl

  account_in_worth :
      (c : ExecutionEngine J Fixed) (t : Option (Trader Fixed))
      → c.trader ≡ t
      → c.phase ≡ booking
      → worth (account_in c t) ≡ worth c
  unfolding account_in
  account_in_worth c none h at = rw (at, h) refl
  account_in_worth c (some t) h at =
      if-elim (λ (s : ExecutionEngine J Fixed). worth s ≡ worth c)
        (not (fixed_double.eq (t.total_profit -ℤ c.accounted_profit) nought))
        (λ _. rw (at, h) (omega int_laws)) (λ _. rw (at, h) refl)

  -- Starting a trader where none is left with unbooked profit.
  pub start_worth :
      (c : ExecutionEngine J Fixed) (symbol : String) (loads : Bool)
      → is_recording c.phase ≡ false
      → unbooked c ≡ pos 0
      → worth (start_trader_for c symbol loads).0 ≡ worth c
  unfolding start_trader_for
  start_worth c symbol loads free h =
      if-elim (λ (o : ExecutionEngine J Fixed × Bool). worth o.0 ≡ worth c) loads
        (λ _. rw (accounted_lem c.phase (pos 0) free, h) (omega int_laws)) (λ _. refl)

  applied_worth :
      (c : ExecutionEngine J Fixed) (generation : ℕ) (o : ExecutionEngine J Fixed × Bool)
      → worth o.0 ≡ worth c
      → worth (applied generation o).0 ≡ worth c
  unfolding applied
  applied_worth c generation (s, true) h = h
  applied_worth c generation (s, false) h = h

  nothing_unbooked :
      (c : ExecutionEngine J Fixed)
      → unbooked (if has_trader c.trader then stop_trader c [] else c) ≡ pos 0
  unfolding stop_trader
  nothing_unbooked c = no_trader c.trader
    where
      no_trader :
          (t : Option (Trader Fixed))
          → unbooked_of
              (accounted_in
                (if has_trader t then stop_trader c [] else record c { trader = t }).phase
                (if has_trader t
                  then stop_trader c []
                  else record c { trader = t }).accounted_profit)
              (if has_trader t then stop_trader c [] else record c { trader = t }).trader
            ≡ pos 0
      no_trader none = refl
      no_trader (some t) = refl

  control_worth :
      (c : ExecutionEngine J Fixed) (loads : Bool)
      → is_recording c.phase ≡ false
      → worth (apply_runtime_control c [] loads).0 ≡ worth c
  unfolding apply_runtime_control
  control_worth c loads free =
      let P : ExecutionEngine J Fixed × Bool → Type 0 = λ o. worth o.0 ≡ worth c in
      let symbol =
        if not c.control.auto_symbol && not (str_eq c.control.manual_symbol "")
        then c.control.manual_symbol
        else c.current_symbol in
      let stopped : ExecutionEngine J Fixed = if has_trader c.trader then stop_trader c [] else c in
      if-elim P (c.control.generation == c.applied_control_generation) (λ _. refl)
        (λ _.
          if-elim P (position_open c.trader) (λ _. refl)
            (λ _.
              applied_worth c c.control.generation
                (if not (str_eq symbol "")
                  then start_trader_for stopped symbol loads
                  else (stopped, true))
                (if-elim P (not (str_eq symbol ""))
                  (λ _.
                    start_worth stopped symbol loads (ap is_recording (stopped_phase c) ∙ free)
                      (nothing_unbooked c)
                    ∙ stopped_worth c free)
                  (λ _. stopped_worth c free))))

  control_phase :
      (c : ExecutionEngine J Fixed) (loads : Bool)
      → (apply_runtime_control c [] loads).0.phase ≡ c.phase
  unfolding apply_runtime_control
  control_phase c loads =
      let P : ExecutionEngine J Fixed × Bool → Type 0 = λ o. o.0.phase ≡ c.phase in
      let symbol =
        if not c.control.auto_symbol && not (str_eq c.control.manual_symbol "")
        then c.control.manual_symbol
        else c.current_symbol in
      let stopped : ExecutionEngine J Fixed = if has_trader c.trader then stop_trader c [] else c in
      if-elim P (c.control.generation == c.applied_control_generation) (λ _. refl)
        (λ _.
          if-elim P (position_open c.trader) (λ _. refl)
            (λ _.
              applied_phase c.control.generation (
                if not (str_eq symbol "")
                then start_trader_for stopped symbol loads
                else (stopped, true))
              ∙ if-elim P (not (str_eq symbol ""))
                  (λ _. start_phase stopped symbol loads ∙ stopped_phase c) (λ _. stopped_phase c)))

  main_step_in_worth :
      (c : ExecutionEngine J Fixed) (phase : MainPhase Fixed) (loads : Bool)
      → c.phase ≡ phase
      → worth (main_step_in c phase [] loads) ≡ worth c
  unfolding main_step_in
  main_step_in_worth c controlling loads at =
      let after : ExecutionEngine J Fixed = (apply_runtime_control c [] loads).0 in
      let free : is_recording c.phase ≡ false = rw at refl in
      let here : after.phase ≡ controlling = control_phase c loads ∙ at in
      let same : worth after ≡ worth c = control_worth c loads free in
      if-elim (λ (s : ExecutionEngine J Fixed). worth s ≡ worth c)
        (apply_runtime_control c [] loads).1
        (λ _.
          ap
            (λ p.
              after.paper_account.equity
              +ℤ unbooked_of (accounted_in p after.accounted_profit) after.trader)
            (sym here)
          ∙ same)
        (λ _. same)
  main_step_in_worth c booking loads at = account_in_worth c c.trader refl at
  main_step_in_worth c (recording total) loads at =
      ap (λ p. c.paper_account.equity +ℤ unbooked_of (accounted_in p c.accounted_profit) c.trader)
        (sym at)

  pub main_step_worth :
      (c : ExecutionEngine J Fixed) (loads : Bool) → worth (main_step c [] loads) ≡ worth c
  main_step_worth c loads = main_step_in_worth c c.phase loads refl
