-- ===== src/Market/Spsc.antt =====
-- src/sentum/market/SpscRingQueue.hpp: the queue between the stream thread and the writer thread. Each
-- function is one call of its thread, as one step.
pub mod Fifo
pub mod Threads
use sentum.Prelude.{
  ℕ, ◌+◌, ◌-◌, ◌%◌, Bool, true, false, Option, none, some, List, [], ◌∷◌, if◌then◌else◌, ◌==◌, leb,
  get_or, set, replicate,
}

-- `slots_` holds an optional in each cell.
pub record Ring {ℓ} (A : Type ℓ) : Type ℓ where
  pub slots : List (Option A)
  pub head : ℕ
  pub tail : ℕ

-- `head` and `tail` stay below the capacity, which is a `size_t`, so `value + 1` does not wrap.
unfoldable pub increment : ℕ → ℕ → ℕ
increment cap value = (value + 1) % cap

abbrev pub usable_capacity : ℕ → ℕ
usable_capacity cap = cap - 1

-- What `try_pop` does with `out`: nothing, or the value moved from the slot; `moved none` is a read of
-- an empty optional, which C++ leaves undefined.
pub data Popped {ℓ} (A : Type ℓ) : Type ℓ where
  refused : Popped A
  moved : Option A → Popped A

module _ {ℓ} {A : Type ℓ} (cap : ℕ) where
  abbrev pub new_ring : Ring A
  new_ring = record { slots = replicate cap none; head = 0; tail = 0 }

  unfoldable pub try_push : Ring A → A → Ring A × Bool
  unfolding increment
  try_push r value =
      let next = increment cap r.head in
      if next == r.tail
      then (r, false)
      else (record r { slots = set r.slots r.head (some value); head = next }, true)

  unfoldable pub try_pop : Ring A → Ring A × Popped A
  unfolding increment
  try_pop r = if r.tail == r.head then (r, refused) else (
    record r { slots = set r.slots r.tail none; tail = increment cap r.tail },
    moved (get_or r.slots r.tail none),
  )

  unfoldable pub empty : Ring A → Bool
  empty r = r.tail == r.head

  unfoldable pub size_approx : Ring A → ℕ
  size_approx r = if leb r.tail r.head then r.head - r.tail else cap - (r.tail - r.head)
