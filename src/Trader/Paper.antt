-- ===== src/Trader/Paper.antt =====
-- src/sentum/trader/paper/PaperAccount.hpp. The file that keeps the account is a parameter: what `load`
-- reads of it is an argument. Writing it leaves no trace here, and an exception of `create_directories`, which
-- leaves the caller after the account has changed, is not modelled.
use sentum.Prelude.{ℕ, ◌+◌, String, not, Option, none, some, if◌then◌else◌}
use sentum.Prelude.Dict.{str_eq}
use sentum.Float.{Double, ◌⊕◌, ◌⊖◌, nought}

pub record PaperAccount (W : Type 0) : Type 0 where
  pub currency : String
  pub initial_balance : W
  pub equity : W
  pub realized_profit : W
  pub closed_trades : ℕ

-- The document in the file: `value` with a fallback, `none` where it throws.
pub record PaperDocument (J W : Type 0) : Type 0 where
  pub value_text : J → String → String → Option String
  pub value_number : J → String → W → Option W
  pub value_integer : J → String → ℕ → Option ℕ

module _ {W : Type 0} ⦃d : Double W⦄ where
  abbrev pub apply_realized_profit : PaperAccount W → W → PaperAccount W
  apply_realized_profit a delta = record a {
    equity = a.equity ⊕ delta;
    realized_profit = a.realized_profit ⊕ delta;
    closed_trades = a.closed_trades + 1;
  }

  abbrev pub reset_account : PaperAccount W → PaperAccount W
  reset_account a = record a {
    equity = a.initial_balance;
    realized_profit = nought;
    closed_trades = 0;
  }

  abbrev pub blank_account : String → W → PaperAccount W
  blank_account currency initial_balance = record {
    currency = currency;
    initial_balance = initial_balance;
    equity = initial_balance;
    realized_profit = nought;
    closed_trades = 0;
  }

  -- `load`: a file that is missing, broken or about another currency leaves the account at its start.
  unfoldable pub load_account :
      {J : Type 0} → PaperDocument J W → PaperAccount W → Option J → PaperAccount W
  load_account doc a none = a
  load_account doc a (some j) = elim (doc.value_text j "currency" a.currency) [
    | none ↦ reset_account a
    | some currency ↦
        if not (str_eq currency a.currency)
        then a
        else elim (doc.value_number j "equity" a.initial_balance) [
          | none ↦ reset_account a
          | some equity ↦ elim (doc.value_number j "realized_profit" (equity ⊖ a.initial_balance)) [
            | none ↦ reset_account a
            | some realized ↦ elim (doc.value_integer j "closed_trades" 0) [
              | none ↦ reset_account a
              | some closed ↦ record a {
                equity = equity;
                realized_profit = realized;
                closed_trades = closed;
              }
            ]
          ]
        ]
  ]
