-- ===== src/Market/Spsc/Threads/Order.antt =====
-- The threads hand every value over once and in order, whatever the order of their accesses.
use sentum.Prelude.{ℕ, ◌<◌, ◌≡◌, refl, some, List, [], ◌∷◌, ◌++◌, map, arith, length}
use sentum.Market.Spsc.Threads.{
  Producer, writing, publishing, Consumer, moving, clearing, releasing, Threads, new_threads,
  produce_at, produce, consume_at, consume,
}
use sentum.Market.Spsc.Threads.Agrees.{
  Agrees, new_threads-Agrees, push_test, push_write, push_publish, pop_test,
}
use sentum.Market.Spsc.Threads.Pops.{move, clear, release}

-- Which thread makes its next access; the producer pushes the value if it is outside a call.
pub data Turn (A : Type 0) : Type 0 where
  producing : A → Turn A
  consuming : Turn A

module _ {A : Type 0} (cap : ℕ) where
  abbrev pub interleave : Threads A → List (Turn A) → Threads A
  interleave s [] = s
  interleave s (producing value ∷ turns) = interleave (produce cap s value) turns
  interleave s (consuming ∷ turns) = interleave (consume cap s) turns

  produce_at-Agrees :
      (p : Producer A) (pending : List A) (s : Threads A) (value : A)
      → s.producer ≡ p
      → Agrees cap pending s
      → (pending' : List A) × Agrees cap pending' (produce_at cap p s value)
  produce_at-Agrees Producer.outside pending s value here k =
      (pending, push_test cap pending s k value here)
  produce_at-Agrees (writing old) pending s value here k =
      (pending, push_write cap pending s k old value here)
  produce_at-Agrees (publishing old) pending s value here k =
      (pending ++ (old ∷ []), push_publish cap pending s k old value here)

  consume_at-Agrees :
      (c : Consumer) (pending : List A) (s : Threads A)
      → s.consumer ≡ c
      → Agrees cap pending s
      → (pending' : List A) × Agrees cap pending' (consume_at cap c s)
  consume_at-Agrees Consumer.outside pending s here k = (pending, pop_test cap pending s k here)
  consume_at-Agrees moving [] s here k = absurd (omega (arith, k.busy (rw here refl)))
  consume_at-Agrees moving (value ∷ pending) s here k =
      (pending, move cap value pending s (rw here refl) k)
  consume_at-Agrees clearing pending s here k = (pending, clear cap pending s (rw here refl) k)
  consume_at-Agrees releasing pending s here k = (pending, release cap pending s (rw here refl) k)

  interleave-Agrees :
      (turns : List (Turn A)) (pending : List A) (s : Threads A)
      → Agrees cap pending s
      → (pending' : List A) × Agrees cap pending' (interleave s turns)
  unfolding produce consume
  interleave-Agrees [] pending s k = (pending, k)
  interleave-Agrees (producing value ∷ turns) pending s k =
      let (pending', k') = produce_at-Agrees s.producer pending s value refl k in
      interleave-Agrees turns pending' _ k'
  interleave-Agrees (consuming ∷ turns) pending s k =
      let (pending', k') = consume_at-Agrees s.consumer pending s refl k in
      interleave-Agrees turns pending' _ k'

  -- However the single accesses of the two threads fall, the values that were accepted are the values that were
  -- moved out, followed by fewer pending ones than the ring has cells: none is lost, doubled, overtaken or read
  -- from an empty cell.
  pub interleave_in_order :
      (turns : List (Turn A))
      → 1 < cap
      → (pending : List A) × (length pending < cap)
        × (map some (interleave (new_threads cap) turns).accepted
            ≡ (interleave (new_threads cap) turns).received ++ map some pending)
  interleave_in_order turns h =
      let (pending, k) = interleave-Agrees turns [] (new_threads cap) (new_threads-Agrees cap h) in
      (pending, omega (arith, k.room), k.handed)
