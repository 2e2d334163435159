-- ===== src/Market/Indicators.antt =====
-- src/sentum/market/IncrementalIndicators.hpp. The rings are vectors with a head and a size, as in the code.
use sentum.Prelude.{
  ℕ, ◌+◌, ◌-◌, ◌%◌, max, ◌==◌, Bool, true, false, not, List, if◌then◌else◌, ltb, leb, length, set,
  get_or, replicate,
}
use sentum.Float.{Double, ◌⊕◌, ◌⊖◌, ◌⊗◌, ◌⊘◌, le, gt, nought, one, from_size, fmax}

pub record RollingReturn (W : Type 0) : Type 0 where
  pub values : List W
  pub head : ℕ
  pub size : ℕ

pub record RollingSma (W : Type 0) : Type 0 where
  pub values : List W
  pub head : ℕ
  pub size : ℕ
  pub sum : W

pub record Ema (W : Type 0) : Type 0 where
  pub alpha : W
  pub value : W
  pub initialized : Bool

pub record Rsi (W : Type 0) : Type 0 where
  pub period : ℕ
  pub samples : ℕ
  pub previous : W
  pub avg_gain : W
  pub avg_loss : W
  pub has_previous : Bool

module _ {W : Type 0} ⦃d : Double W⦄ where
  abbrev pub new_return : ℕ → RollingReturn W
  new_return period = record { values = replicate (max 2 period) nought; head = 0; size = 0 }

  unfoldable pub push_return : RollingReturn W → W → RollingReturn W
  push_return r value = record {
    values = set r.values r.head value;
    head = (r.head + 1) % length r.values;
    size = if ltb r.size (length r.values) then r.size + 1 else r.size;
  }

  abbrev pub ready_return : RollingReturn W → Bool
  ready_return r = r.size == length r.values

  unfoldable pub value_return : RollingReturn W → W
  value_return r =
      if not (ready_return r)
      then nought
      else (let first = get_or r.values r.head nought in
          let last = get_or r.values ((r.head + length r.values - 1) % length r.values) nought in
          if gt first nought then (last ⊖ first) ⊘ first else nought)

  -- The values stay in the ring.
  abbrev pub reset_return : RollingReturn W → RollingReturn W
  reset_return r = record r { head = 0; size = 0 }

  abbrev pub new_sma : ℕ → RollingSma W
  new_sma period = record {
    values = replicate (max 1 period) nought;
    head = 0;
    size = 0;
    sum = nought;
  }

  abbrev pub current_sma : RollingSma W → W
  current_sma r = if r.size == 0 then nought else r.sum ⊘ from_size r.size

  unfoldable pub push_sma : RollingSma W → W → RollingSma W × W
  push_sma r value =
      let pushed : RollingSma W =
        if ltb r.size (length r.values)
        then record r { values = set r.values r.head value; sum = r.sum ⊕ value; size = r.size + 1 }
        else record r {
          values = set r.values r.head value;
          sum = (r.sum ⊖ get_or r.values r.head nought) ⊕ value;
        } in
      let moved : RollingSma W = record pushed {
        head = (pushed.head + 1) % length pushed.values;
      } in
      (moved, current_sma moved)

  abbrev pub ready_sma : RollingSma W → Bool
  ready_sma r = r.size == length r.values

  abbrev pub new_ema : ℕ → Ema W
  new_ema period = record {
    alpha = from_size 2 ⊘ (from_size (max 1 period) ⊕ one);
    value = nought;
    initialized = false;
  }

  unfoldable pub push_ema : Ema W → W → Ema W
  push_ema e value =
      if not e.initialized
      then record e { value = value; initialized = true }
      else record e { value = e.value ⊕ (e.alpha ⊗ (value ⊖ e.value)) }

  abbrev pub new_rsi : ℕ → Rsi W
  new_rsi period = record {
    period = max 1 period;
    samples = 0;
    previous = nought;
    avg_gain = nought;
    avg_loss = nought;
    has_previous = false;
  }

  -- The averages after one more change.
  unfoldable pub average_rsi : Rsi W → W → W → Rsi W
  average_rsi r gain loss =
      let n = from_size r.period in
      let rest = from_size (r.period - 1) in
      if ltb r.samples r.period
      then (let gains = r.avg_gain ⊕ gain in
          let losses = r.avg_loss ⊕ loss in
          let full = r.samples + 1 == r.period in
          record r {
            samples = r.samples + 1;
            avg_gain = if full then gains ⊘ n else gains;
            avg_loss = if full then losses ⊘ n else losses;
          })
      else record r {
        avg_gain = ((r.avg_gain ⊗ rest) ⊕ gain) ⊘ n;
        avg_loss = ((r.avg_loss ⊗ rest) ⊕ loss) ⊘ n;
      }

  unfoldable pub push_rsi : Rsi W → W → Rsi W × W
  push_rsi r price =
      if not r.has_previous
      then (record r { previous = price; has_previous = true }, from_size 50)
      else (let delta = price ⊖ r.previous in
          let gain = fmax nought delta in
          let loss = fmax nought (d.neg delta) in
          let averaged = average_rsi (record r { previous = price }) gain loss in
          (
            averaged,
            (if ltb averaged.samples averaged.period
                then from_size 50
                else if le averaged.avg_loss nought
                then from_size 100
                else (let rs = averaged.avg_gain ⊘ averaged.avg_loss in
                    from_size 100 ⊖ (from_size 100 ⊘ (one ⊕ rs)))),
          ))

  abbrev pub ready_rsi : Rsi W → Bool
  ready_rsi r = leb r.period r.samples
