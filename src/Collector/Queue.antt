-- ===== src/Collector/Queue.antt =====
-- src/sentum/collector/Collector.cpp: the queue between the stream's thread, which calls `try_enqueue`, and
-- the thread of `writer_loop`. A call of the ring is one step. What the database answers to a batch is an
-- argument; the metrics, the log and the wake-ups are left out, so a wait may end at any time.
pub mod Delivery
pub mod Runs
pub mod Drain
use sentum.Prelude.{
  ℕ, ◌+◌, Bool, true, false, not, ◌||◌, Option, none, some, List, [], ◌∷◌, ◌++◌, if◌then◌else◌, ltb,
  length,
}
use sentum.Market.Spsc.{Ring, new_ring, try_push, try_pop, Popped, refused, moved, empty}

-- Where `writer_loop` stands: at its outer test, in the loop that fills the batch, at the test of the batch,
-- before the wait, before the database is called, or returned. `fault` is a read of an empty slot.
pub data Phase : Type 0 where
  checking filling deciding waiting saving finished fault : Phase

pub record Channel (A : Type 0) : Type 0 where
  pub running : Bool
  pub queue : Ring A
  pub enqueued : ℕ
  pub dropped : ℕ
  pub phase : Phase
  pub batch : List A
  -- The batches given to `save_kline_batch`, latest last, with its answers.
  pub handed : List (List A × Bool)

abbrev pub batch_size : ℕ
batch_size = 256

abbrev pub queue_capacity : ℕ
queue_capacity = 8192

abbrev pub is_nil : {A : Type 0} → List A → Bool
is_nil [] = true
is_nil (x ∷ xs) = false

module _ {A : Type 0} where
  -- After the result of `try_pop`.
  unfoldable pub popped : Channel A → Ring A × Popped A → Channel A
  popped c (q, refused) = record c { queue = q; phase = deciding }
  popped c (q, moved none) = record c { queue = q; phase = fault }
  popped c (q, moved (some item)) = record c { queue = q; batch = c.batch ++ (item ∷ []) }

-- What `stop` and the end of `run` do to the flag.
unfoldable pub halt : {A : Type 0} → Channel A → Channel A
halt c = record c { running = false }

module _ {A : Type 0} (cap : ℕ) where
  -- The threads are started.
  abbrev pub start_channel : Channel A
  start_channel = record {
    running = true;
    queue = new_ring cap;
    enqueued = 0;
    dropped = 0;
    phase = checking;
    batch = [];
    handed = [];
  }

  unfoldable pub try_enqueue : Channel A → A → Channel A × Bool
  try_enqueue c item =
      let (q, done) = try_push cap c.queue item in
      if done
      then (record c { queue = q; enqueued = c.enqueued + 1 }, true)
      else (record c { dropped = c.dropped + 1 }, false)

  -- The next step of `writer_loop`; `saves` is the answer of the database, should it be asked.
  unfoldable pub write_in : Phase → Channel A → Bool → Channel A
  write_in checking c saves =
      if c.running || not (empty cap c.queue)
      then record c { phase = filling }
      else record c { phase = finished }
  write_in filling c saves =
      if ltb (length c.batch) batch_size
      then popped c (try_pop cap c.queue)
      else record c { phase = deciding }
  write_in deciding c saves =
      if is_nil c.batch then record c { phase = waiting } else record c { phase = saving }
  write_in waiting c saves = record c { phase = checking }
  write_in saving c saves = record c {
    phase = checking;
    handed = c.handed ++ ((c.batch, saves) ∷ []);
    batch = [];
  }
  write_in finished c saves = c
  write_in fault c saves = c

  unfoldable pub write : Channel A → Bool → Channel A
  write c saves = write_in c.phase c saves
