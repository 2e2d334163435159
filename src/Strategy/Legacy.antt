-- ===== src/Strategy/Legacy.antt =====
-- src/sentum/strategy/RsiStrategy.hpp and src/sentum/strategy/SmaStrategy.hpp: the older strategies, on a list
-- of prices, oldest first. The periods are integers above 0.
use sentum.Prelude.{
  ℕ, zero, suc, ◌+◌, ◌-◌, List, [], ◌∷◌, if◌then◌else◌, ltb, leb, length, get_or, drop,
}
use sentum.Float.{Double, ◌⊕◌, ◌⊖◌, ◌⊘◌, lt, gt, nought, one, from_size}

pub data Signal : Type 0 where
  buy sell hold : Signal

pub record Moves (W : Type 0) : Type 0 where
  pub gain : W
  pub loss : W

module _ {W : Type 0} ⦃d : Double W⦄ where
  -- The loop over the last changes, from round `i` on, with `rounds` to go.
  unfoldable pub add_moves : List W → Moves W → ℕ → ℕ → Moves W
  add_moves prices m i zero = m
  add_moves prices m i (suc rounds) =
      let n = length prices in
      let change = get_or prices (n - i) nought ⊖ get_or prices (n - i - 1) nought in
      let next : Moves W =
        if gt change nought
        then record m { gain = m.gain ⊕ change }
        else record m { loss = m.loss ⊖ change } in
      add_moves prices next (i + 1) rounds

  unfoldable pub calculate_rsi : ℕ → List W → W
  calculate_rsi period prices =
      if leb (length prices) period
      then from_size 50
      else (let m = add_moves prices (record { gain = nought; loss = nought }) 1 period in
          if d.eq (m.gain ⊕ m.loss) nought
          then from_size 50
          else from_size 100 ⊖ (from_size 100 ⊘ (one ⊕ (m.gain ⊘ m.loss))))

  unfoldable pub rsi_signal : ℕ → List W → Signal
  rsi_signal period prices =
      if ltb (length prices) (period + 1)
      then hold
      else (let rsi = calculate_rsi period prices in
          if lt rsi (from_size 30) then buy else if gt rsi (from_size 70) then sell else hold)

  unfoldable pub accumulate : W → List W → W
  accumulate sum [] = sum
  accumulate sum (x ∷ xs) = accumulate (sum ⊕ x) xs

  unfoldable pub calculate_sma : List W → ℕ → W
  calculate_sma prices period =
      if ltb (length prices) period
      then nought
      else accumulate nought (drop (length prices - period) prices) ⊘ from_size period

  unfoldable pub sma_signal : ℕ → ℕ → List W → Signal
  sma_signal short_period long_period prices =
      if ltb (length prices) long_period
      then hold
      else (let sma_short = calculate_sma prices short_period in
          let sma_long = calculate_sma prices long_period in
          if gt sma_short sma_long then buy else if lt sma_short sma_long then sell else hold)
