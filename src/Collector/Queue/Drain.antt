-- ===== src/Collector/Queue/Drain.antt =====
-- The writer returns after `stop`.
use sentum.Prelude.{
  ℕ, ◌+◌, ◌-◌, ◌*◌, ◌≤◌, ◌<◌, ◌≡◌, refl, sym, ap, ◌∙◌, ◌≢◌, Bool, true, false, List, [], ◌∷◌, ◌++◌,
  if◌then◌else◌, lt→ltb, ◌==◌, length, arith,
}
use mathlib.Core.List.{append-nil}
use native.Mathlib.Decide.{dec_lt}
use sentum.Market.Spsc.{empty}
use sentum.Market.Spsc.Fifo.{pop_empty, pop_some, not_ltb, size_approx_exact}
use sentum.Collector.Queue.{
  Phase, checking, filling, deciding, waiting, saving, finished, fault, Channel, batch_size, is_nil,
  popped, start_channel, write_in, write, halt,
}
use sentum.Collector.Queue.Delivery.{delivered, batch_ok, Carries, left, write_in-Carries}
use sentum.Collector.Queue.Runs.{Event, play, halt-Carries, play_delivers}

-- How many steps of the writer are left at most, from the phase, whether the batch is empty, and the length of
-- the queue.
abbrev weight : Phase → Bool → ℕ → ℕ
weight checking nil n = if n == 0 then 1 else n * 10 + 5
weight filling nil n = if nil then (if n == 0 then 8 else n * 10 + 4) else n * 10 + 8
weight deciding nil n = n * 10 + 7
weight waiting nil n = n * 10 + 6
weight saving nil n = n * 10 + 6
weight finished nil n = 0
weight fault nil n = 0

abbrev ends_empty : {A : Type 0} → Phase → List A → Bool
ends_empty finished q = is_nil q
ends_empty checking q = true
ends_empty filling q = true
ends_empty deciding q = true
ends_empty waiting q = true
ends_empty saving q = true
ends_empty fault q = true

nil_eq : {A : Type 0} (xs : List A) → is_nil xs ≡ (length xs == 0)
nil_eq [] = refl
nil_eq (x ∷ xs) = ground arith

snoc_nonempty : {A : Type 0} (xs : List A) (x : A) → is_nil (xs ++ (x ∷ [])) ≡ false
snoc_nonempty [] x = refl
snoc_nonempty (y ∷ xs) x = refl

weight_left :
    {A : Type 0} (phase : Phase) (nil : Bool) (batch q : List A)
    → batch_ok phase batch ≡ true
    → weight phase nil (length q) ≤ 0
    → phase ≡ finished
weight_left finished nil batch q fits h = refl
weight_left checking nil batch [] fits h = absurd (ground arith)
weight_left checking nil batch (item ∷ q) fits h = absurd (ground arith)
weight_left filling nil batch q fits h = absurd (ground arith)
weight_left deciding nil batch q fits h = absurd (ground arith)
weight_left waiting nil batch q fits h = absurd (ground arith)
weight_left saving nil batch q fits h = absurd (ground arith)
weight_left fault nil batch q fits h = absurd (ground arith)

nil_eq_nil : {A : Type 0} (xs : List A) → is_nil xs ≡ true → xs ≡ []
nil_eq_nil [] h = refl
nil_eq_nil (x ∷ xs) h = absurd (ground arith)

weight_bound : (phase : Phase) (nil : Bool) (n : ℕ) → weight phase nil n ≤ n * 10 + 8
weight_bound checking nil n = ground arith
weight_bound filling nil n = ground arith
weight_bound deciding nil n = ground arith
weight_bound waiting nil n = ground arith
weight_bound saving nil n = ground arith
weight_bound finished nil n = ground arith
weight_bound fault nil n = ground arith

still_open :
    {A : Type 0} (phase : Phase) (q : List A) → phase ≢ finished → ends_empty phase q ≡ true
still_open checking q h = refl
still_open filling q h = refl
still_open deciding q h = refl
still_open waiting q h = refl
still_open saving q h = refl
still_open finished q h = absurd (h refl)
still_open fault q h = refl

module _ {A : Type 0} (cap : ℕ) where
  -- Only the writer runs.
  abbrev pub writes : Channel A → List Bool → Channel A
  writes c [] = c
  writes c (saves ∷ answers) = writes (write cap c saves) answers

  -- What a step of the writer does after `stop`.
  record Shrinks (phase : Phase) (nil : Bool) (q : List A) (c' : Channel A) (q' : List A)
      : Type 0 where
    halted : c'.running ≡ false
    emptied : ends_empty c'.phase q' ≡ true
    lighter : weight c'.phase (is_nil c'.batch) (length q') ≤ weight phase nil (length q) - 1

  write_in-Shrinks :
      (phase : Phase) (accepted q : List A) (c : Channel A) (saves : Bool)
      → c.phase ≡ phase
      → c.running ≡ false
      → ends_empty phase q ≡ true
      → Carries cap accepted q c
      → Shrinks phase (is_nil c.batch) q (write_in cap phase c saves) (left cap phase c.batch q)
  unfolding write_in popped
  write_in-Shrinks checking accepted [] c saves here still ok k =
      let vacant : empty cap c.queue ≡ true = (size_approx_exact cap c.queue [] k.holds).1 in
      rw (still, vacant) (record { halted = refl; emptied = refl; lighter = omega arith })
  write_in-Shrinks checking accepted (item ∷ q) c saves here still ok k =
      let vacant : empty cap c.queue ≡ (length (item ∷ q) == 0) =
        (size_approx_exact cap c.queue (item ∷ q) k.holds).1 in
      let taken : empty cap c.queue ≡ false = ground arith in
      let none_left : is_nil c.batch ≡ true = ground arith in
      rw (still, taken) (record { halted = refl; emptied = refl; lighter = ground arith })
  write_in-Shrinks filling accepted [] c saves here still ok k =
      elim (dec_lt (length c.batch) batch_size) [
        | yes room ↦
            rw (lt→ltb _ _ room, pop_empty cap c.queue k.holds)
              (record { halted = still; emptied = refl; lighter = ground arith })
        | no full ↦
            rw (not_ltb _ _ full)
              (record { halted = still; emptied = refl; lighter = ground arith })
      ]
  write_in-Shrinks filling accepted (item ∷ q) c saves here still ok k =
      elim (dec_lt (length c.batch) batch_size) [
        | yes room ↦
            let (out, holds) = pop_some cap c.queue item q k.holds in
            rw (lt→ltb _ _ room, out)
              (record {
                halted = still;
                emptied = ground (arith, here);
                lighter = ground (arith, here, snoc_nonempty c.batch item);
              })
        | no full ↦
            let some_taken : is_nil c.batch ≡ false = ground (arith, nil_eq c.batch) in
            rw (not_ltb _ _ full)
              (record { halted = still; emptied = refl; lighter = ground arith })
      ]
  write_in-Shrinks deciding accepted q c saves here still ok k = record {
    halted = ground arith;
    emptied = ground arith;
    lighter = ground arith;
  }
  write_in-Shrinks waiting accepted q c saves here still ok k = record {
    halted = still;
    emptied = refl;
    lighter = ground arith;
  }
  write_in-Shrinks saving accepted q c saves here still ok k = record {
    halted = still;
    emptied = refl;
    lighter = ground arith;
  }
  write_in-Shrinks finished accepted q c saves here still ok k = record {
    halted = still;
    emptied = rw here ok;
    lighter = ground arith;
  }
  write_in-Shrinks fault accepted q c saves here still ok k = absurd (ground arith)

  -- A writer that has returned with nothing left has handed over everything.
  all_handed :
      (accepted q : List A) (c : Channel A)
      → c.phase ≡ finished
      → ends_empty c.phase q ≡ true
      → Carries cap accepted q c
      → delivered c.handed ≡ accepted
  all_handed accepted q c here ok k =
      let no_queue : q ≡ [] = nil_eq_nil q (ground arith) in
      let no_batch : c.batch ≡ [] = nil_eq_nil c.batch (ground arith) in
      sym (append-nil (delivered c.handed))
      ∙ ap (λ rest. delivered c.handed ++ rest) (sym (rw (no_batch, no_queue) refl))
      ∙ k.split

  drains :
      (answers : List Bool) (accepted q : List A) (c : Channel A)
      → c.running ≡ false
      → ends_empty c.phase q ≡ true
      → Carries cap accepted q c
      → weight c.phase (is_nil c.batch) (length q) ≤ length answers
      → ((writes c answers).phase ≡ finished) × (delivered (writes c answers).handed ≡ accepted)
  unfolding write
  drains [] accepted q c still ok k enough =
      let here = weight_left c.phase (is_nil c.batch) c.batch q k.fits enough in
      (here, all_handed accepted q c here ok k)
  drains (saves ∷ answers) accepted q c still ok k enough =
      let s = write_in-Shrinks c.phase accepted q c saves refl still ok k in
      drains answers accepted (left cap c.phase c.batch q) (write_in cap c.phase c saves) s.halted
        s.emptied (write_in-Carries cap accepted c.phase q c saves refl k)
        (omega (arith, s.lighter))

  -- After any run in which the writer has not returned, once `stop` has cleared the flag and candles are no
  -- longer accepted, the writer returns within ten steps for each cell of the ring and eight more, whatever
  -- the database answers, and every accepted candle has been given to the database, in order.
  pub stop_drains :
      (events : List (Event A)) (answers : List Bool)
      → 1 < cap
      → (play cap (start_channel cap) events).0.phase ≢ finished
      → cap * 10 + 8 ≤ length answers
      → let end = writes (halt (play cap (start_channel cap) events).0) answers in
        (end.phase ≡ finished) × (delivered end.handed ≡ (play cap (start_channel cap) events).1)
  unfolding halt
  stop_drains events answers h unfinished enough =
      let c = (play cap (start_channel cap) events).0 in
      let (q, k) = play_delivers cap events h in
      drains answers (play cap (start_channel cap) events).1 q (halt c) refl
        (still_open c.phase q unfinished)
        (halt-Carries cap (play cap (start_channel cap) events).1 q c k)
        (omega (arith, weight_bound c.phase (is_nil c.batch) (length q), k.holds.room))
