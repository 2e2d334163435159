-- ===== src/Collector/Queue/Delivery.antt =====
-- Every accepted candle is delivered once and in order, whatever the order of the threads' steps.
use sentum.Prelude.{
  ℕ, ◌+◌, ◌≤◌, ◌<◌, ◌≡◌, refl, sym, ap, ◌∙◌, Bool, true, false, not, ◌||◌, some, List, [], ◌∷◌,
  ◌++◌, if◌then◌else◌, ltb, lt→ltb, length, length-append, arith, if-elim,
}
use mathlib.Core.List.{append-nil, append_assoc}
use native.Mathlib.Decide.{dec_lt}
use sentum.Market.Spsc.{Ring, try_pop, moved, empty}
use sentum.Market.Spsc.Fifo.{
  Holds, push_free, push_full, pop_empty, pop_some, new_ring-Holds, not_ltb,
}
use sentum.Collector.Queue.{
  Phase, checking, filling, deciding, waiting, saving, finished, fault, Channel, batch_size, is_nil,
  popped, start_channel, try_enqueue, write_in,
}

module _ {A : Type 0} where
  -- The candles of the batches, in order.
  abbrev pub delivered : List (List A × Bool) → List A
  delivered [] = []
  delivered ((batch, saves) ∷ batches) = batch ++ delivered batches

  delivered-append :
      (xs ys : List (List A × Bool)) → delivered (xs ++ ys) ≡ delivered xs ++ delivered ys
  delivered-append [] ys = refl
  delivered-append ((batch, saves) ∷ xs) ys =
      ap (λ rest. batch ++ rest) (delivered-append xs ys)
      ∙ sym (append_assoc batch (delivered xs) (delivered ys))

  -- Outside the loop that fills it and the two steps after, the batch is empty.
  abbrev pub batch_ok : Phase → List A → Bool
  batch_ok filling batch = true
  batch_ok deciding batch = true
  batch_ok saving batch = not (is_nil batch)
  batch_ok checking batch = is_nil batch
  batch_ok waiting batch = is_nil batch
  batch_ok finished batch = is_nil batch
  batch_ok fault batch = false

module _ {A : Type 0} (cap : ℕ) where
  -- Of the accepted candles, oldest first, those at the front were given to the database, the next ones are in
  -- the batch and the rest in the queue.
  pub record Carries (accepted : List A) (q : List A) (c : Channel A) : Type 0 where
    pub holds : Holds cap c.queue q
    pub split : delivered c.handed ++ (c.batch ++ q) ≡ accepted
    pub counted : c.enqueued ≡ length accepted
    pub small : length c.batch ≤ batch_size
    pub fits : batch_ok c.phase c.batch ≡ true

  pub start_channel-Carries : 1 < cap → Carries [] [] (start_channel cap)
  start_channel-Carries h = record {
    holds = new_ring-Holds cap h;
    split = refl;
    counted = refl;
    small = omega arith;
    fits = refl;
  }

  module _ (accepted : List A) where
    pub enqueue_free :
        (q : List A) (c : Channel A) (item : A)
        → length q + 1 < cap
        → Carries accepted q c
        → let (c', done) = try_enqueue cap c item in
          (done ≡ true) × Carries (accepted ++ (item ∷ [])) (q ++ (item ∷ [])) c'
    unfolding try_enqueue
    enqueue_free q c item free k =
        let (done, holds) = push_free cap c.queue q item k.holds free in
        rw done (
          refl,
          record {
            holds = holds;
            split = rw (← k.split) (simp append_assoc);
            counted = omega (arith, k.counted, length-append accepted (item ∷ []));
            small = k.small;
            fits = k.fits;
          },
        )

    pub enqueue_full :
        (q : List A) (c : Channel A) (item : A)
        → length q + 1 ≡ cap
        → Carries accepted q c
        → let (c', done) = try_enqueue cap c item in (done ≡ false) × Carries accepted q c'
    unfolding try_enqueue
    enqueue_full q c item full k = rw (push_full cap c.queue q item k.holds full) (
      refl,
      record {
        holds = k.holds;
        split = k.split;
        counted = k.counted;
        small = k.small;
        fits = k.fits;
      },
    )

  -- What a step of the writer leaves in the queue.
  abbrev pub left : Phase → List A → List A → List A
  left filling batch [] = []
  left filling batch (item ∷ q) = if ltb (length batch) batch_size then q else item ∷ q
  left checking batch q = q
  left deciding batch q = q
  left waiting batch q = q
  left saving batch q = q
  left finished batch q = q
  left fault batch q = q

  module _ (accepted : List A) where
    -- A step that changes only the phase.
    moved_on :
        (q : List A) (c : Channel A) (phase : Phase)
        → batch_ok phase c.batch ≡ true
        → Carries accepted q c
        → Carries accepted q (record c { phase = phase })
    moved_on q c phase fits k = record {
      holds = k.holds;
      split = k.split;
      counted = k.counted;
      small = k.small;
      fits = fits;
    }

    took :
        (q : List A) (c : Channel A) (item : A) (ring : Ring A)
        → c.phase ≡ filling
        → length c.batch < batch_size
        → Holds cap ring q
        → Carries accepted (item ∷ q) c
        → Carries accepted q (popped c (ring, moved (some item)))
    unfolding popped
    took q c item ring at room holds k = record {
      holds = holds;
      split =
          ap (λ rest. delivered c.handed ++ rest) (append_assoc c.batch (item ∷ []) q) ∙ k.split;
      counted = k.counted;
      small = omega (arith, length-append c.batch (item ∷ []));
      fits = rw at refl;
    }

    fill-Carries :
        (q : List A) (c : Channel A) (saves : Bool)
        → c.phase ≡ filling
        → Carries accepted q c
        → Carries accepted (left filling c.batch q) (write_in cap filling c saves)
    unfolding write_in popped
    fill-Carries [] c saves at k = elim (dec_lt (length c.batch) batch_size) [
      | yes room ↦
          rw (lt→ltb _ _ room, pop_empty cap c.queue k.holds) (moved_on [] c deciding refl k)
      | no full ↦ rw (not_ltb _ _ full) (moved_on [] c deciding refl k)
    ]
    fill-Carries (item ∷ q) c saves at k = elim (dec_lt (length c.batch) batch_size) [
      | yes room ↦
          let (out, holds) = pop_some cap c.queue item q k.holds in
          rw (lt→ltb _ _ room, out) (took q c item (try_pop cap c.queue).0 at room holds k)
      | no full ↦ rw (not_ltb _ _ full) (moved_on (item ∷ q) c deciding refl k)
    ]

    give-Carries :
        (q : List A) (c : Channel A) (saves : Bool)
        → Carries accepted q c
        → Carries accepted q (write_in cap saving c saves)
    unfolding write_in
    give-Carries q c saves k = record {
      holds = k.holds;
      split =
          rw (delivered-append c.handed ((c.batch, saves) ∷ []))
            ((simp (append_assoc, append-nil)) ∙ k.split);
      counted = k.counted;
      small = omega arith;
      fits = refl;
    }

    -- Every step of the writer keeps the candles in their order.
    pub write_in-Carries :
        (phase : Phase) (q : List A) (c : Channel A) (saves : Bool)
        → c.phase ≡ phase
        → Carries accepted q c
        → Carries accepted (left phase c.batch q) (write_in cap phase c saves)
    unfolding write_in
    write_in-Carries checking q c saves at k =
        if-elim (Carries accepted q) (c.running || not (empty cap c.queue))
          (λ _. moved_on q c filling refl k) (λ _. moved_on q c finished (ground arith) k)
    write_in-Carries filling q c saves at k = fill-Carries q c saves at k
    write_in-Carries deciding q c saves at k =
        if-elim (Carries accepted q) (is_nil c.batch) (λ e. moved_on q c waiting e k)
          (λ e. moved_on q c saving (ground arith) k)
    write_in-Carries waiting q c saves at k = moved_on q c checking (ground arith) k
    write_in-Carries saving q c saves at k = give-Carries q c saves k
    write_in-Carries finished q c saves at k = k
    write_in-Carries fault q c saves at k = k
