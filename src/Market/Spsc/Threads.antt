-- ===== src/Market/Spsc/Threads.antt =====
-- The two threads of src/sentum/market/SpscRingQueue.hpp, one access to shared memory at a time: a call of
-- `try_push` is the test with its load of `tail_`, the write of the slot and the store of `head_`; a call of
-- `try_pop` the test with its load of `head_`, the move from the slot, its reset and the store of `tail_`. A
-- thread's own index is not shared. The accesses are in one order, which acquire and release give here.
pub mod Agrees
pub mod Pops
pub mod Order
use sentum.Prelude.{
  ℕ, Bool, true, false, Option, none, some, List, [], ◌∷◌, ◌++◌, if◌then◌else◌, ◌==◌, get_or, set,
}
use sentum.Market.Spsc.{Ring, increment, new_ring}

-- Where the producer stands: outside a call, before the write, or before the store of `head_`.
pub data Producer (A : Type 0) : Type 0 where
  outside : Producer A
  writing : A → Producer A
  publishing : A → Producer A

-- Where the consumer stands: outside a call, or before the move, the reset or the store of `tail_`.
pub data Consumer : Type 0 where
  outside moving clearing releasing : Consumer

pub record Threads (A : Type 0) : Type 0 where
  pub ring : Ring A
  pub producer : Producer A
  pub consumer : Consumer
  -- The values whose push has returned `true`, and those moved out by pops, in order.
  pub accepted : List A
  pub received : List (Option A)

module _ {A : Type 0} (cap : ℕ) where
  abbrev pub new_threads : Threads A
  new_threads = record {
    ring = new_ring cap;
    producer = Producer.outside;
    consumer = Consumer.outside;
    accepted = [];
    received = [];
  }

  -- The next access of the producer, which pushes `value` if it is outside a call.
  unfoldable pub produce_at : Producer A → Threads A → A → Threads A
  unfolding increment
  produce_at Producer.outside s value =
      if increment cap s.ring.head == s.ring.tail then s else record s { producer = writing value }
  produce_at (writing value) s other = record s {
    ring = record {
      slots = set s.ring.slots s.ring.head (some value);
      head = s.ring.head;
      tail = s.ring.tail;
    };
    producer = publishing value;
  }
  produce_at (publishing value) s other = record s {
    ring = record { slots = s.ring.slots; head = increment cap s.ring.head; tail = s.ring.tail };
    producer = Producer.outside;
    accepted = s.accepted ++ (value ∷ []);
  }

  unfoldable pub produce : Threads A → A → Threads A
  produce s value = produce_at s.producer s value

  -- The next access of the consumer.
  unfoldable pub consume_at : Consumer → Threads A → Threads A
  unfolding increment
  consume_at Consumer.outside s =
      if s.ring.tail == s.ring.head then s else record s { consumer = moving }
  consume_at moving s = record s {
    consumer = clearing;
    received = s.received ++ (get_or s.ring.slots s.ring.tail none ∷ []);
  }
  consume_at clearing s = record s {
    ring = record {
      slots = set s.ring.slots s.ring.tail none;
      head = s.ring.head;
      tail = s.ring.tail;
    };
    consumer = releasing;
  }
  consume_at releasing s = record s {
    ring = record { slots = s.ring.slots; head = s.ring.head; tail = increment cap s.ring.tail };
    consumer = Consumer.outside;
  }

  unfoldable pub consume : Threads A → Threads A
  consume s = consume_at s.consumer s
