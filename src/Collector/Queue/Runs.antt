-- ===== src/Collector/Queue/Runs.antt =====
-- Runs of the stream's thread and the writer, in any order of their steps.
use sentum.Prelude.{ℕ, ◌+◌, ◌<◌, refl, Bool, List, [], ◌∷◌, ◌++◌, if◌then◌else◌, length, arith}
use mathlib.Core.List.{append-nil, append_assoc}
use native.Mathlib.Decide.{dec_lt}
use sentum.Collector.Queue.{Channel, start_channel, try_enqueue, write, halt}
use sentum.Collector.Queue.Delivery.{
  Carries, start_channel-Carries, enqueue_free, enqueue_full, write_in-Carries,
}

-- A step of a thread: a call of `try_enqueue`, a step of the writer, or `stop`.
pub data Event (A : Type 0) : Type 0 where
  push : A → Event A
  write_step : Bool → Event A
  stop : Event A

module _ {A : Type 0} (cap : ℕ) where
  -- A run, with the candles that `try_enqueue` accepted.
  abbrev pub play : Channel A → List (Event A) → Channel A × List A
  play c [] = (c, [])
  play c (push item ∷ events) =
      let (c', done) = try_enqueue cap c item in
      let (end, more) = play c' events in (end, if done then item ∷ more else more)
  play c (write_step saves ∷ events) = play (write cap c saves) events
  play c (stop ∷ events) = play (halt c) events

  pub halt-Carries :
      (accepted q : List A) (c : Channel A)
      → Carries cap accepted q c
      → Carries cap accepted q (halt c)
  unfolding halt
  halt-Carries accepted q c k = record {
    holds = k.holds;
    split = k.split;
    counted = k.counted;
    small = k.small;
    fits = k.fits;
  }

  play-Carries :
      (events : List (Event A)) (accepted q : List A) (c : Channel A)
      → Carries cap accepted q c
      → (q' : List A) × Carries cap (accepted ++ (play c events).1) q' (play c events).0
  unfolding write
  play-Carries [] accepted q c k = (q, rw (append-nil accepted) k)
  play-Carries (push item ∷ events) accepted q c k = elim (dec_lt (length q + 1) cap) [
    | yes free ↦
        let (done, kept) = enqueue_free cap accepted q c item free k in
        rw (done, ← append_assoc accepted (item ∷ []) (play (try_enqueue cap c item).0 events).1)
          (play-Carries events (accepted ++ (item ∷ [])) (q ++ (item ∷ [])) _ kept)
    | no full ↦
        let (refused, kept) = enqueue_full cap accepted q c item (omega (arith, k.holds.room)) k in
        rw refused (play-Carries events accepted q _ kept)
  ]
  play-Carries (write_step saves ∷ events) accepted q c k =
      play-Carries events accepted _ _ (write_in-Carries cap accepted c.phase q c saves refl k)
  play-Carries (stop ∷ events) accepted q c k =
      play-Carries events accepted q (halt c) (halt-Carries accepted q c k)

  -- In every run of the two threads, from the start and in any order of their steps, the accepted candles are
  -- those given to the database, then those in the batch, then those in the queue, in the order of their
  -- acceptance: none is lost, doubled or overtaken. The counter says how many they are.
  pub play_delivers :
      (events : List (Event A))
      → 1 < cap
      → (q : List A) × Carries cap
          (play (start_channel cap) events).1
          q
          (play (start_channel cap) events).0
  play_delivers events h =
      play-Carries events [] [] (start_channel cap) (start_channel-Carries cap h)
