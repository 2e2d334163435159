-- ===== src/Market/Spsc/Threads/Pops.antt =====
-- The steps of the consumer inside a call.
use native.Mathlib.Nat.{mod-lt, mod-add-mod, mod-eq_of_lt}
use mathlib.Core.List.{append_assoc, tail}
use sentum.Prelude.{
  ℕ, suc, ◌+◌, ◌%◌, ◌<◌, ◌≡◌, sym, ap, ◌∙◌, ◌≢◌, none, some, List, [], ◌∷◌, ◌++◌, map, arith,
  length, get_or,
}
use sentum.Circular.{mod-ne, length-set, window, window_mod, window-set_outside}
use sentum.Market.Spsc.{increment}
use sentum.Market.Spsc.Threads.{Threads, moving, clearing, releasing, consume_at}
use sentum.Market.Spsc.Threads.Agrees.{held, Agrees, Written-set}

head_of : {A : Type 0} {a b : A} {s t : List A} → a ∷ s ≡ b ∷ t → a ≡ b
head_of e = cc

module _ {A : Type 0} (cap : ℕ) where
  pub move :
      (value : A) (pending : List A) (s : Threads A)
      → held s.consumer ≡ 0
      → Agrees cap (value ∷ pending) s
      → Agrees cap pending (consume_at cap moving s)
  unfolding consume_at
  move value pending s nothing_held k =
      let whole : window none s.ring.slots cap (s.ring.tail + 0) (suc (length pending))
          ≡ some value ∷ map some pending =
        ap (λ n. window none s.ring.slots cap (s.ring.tail + n) (suc (length pending)))
          (sym nothing_held)
        ∙ k.cells in
      let first : get_or s.ring.slots s.ring.tail none ≡ some value =
        ap (λ i. get_or s.ring.slots i none)
          (sym (mod-eq_of_lt k.tail_in) ∙ ap (λ i. i % cap) (omega arith))
        ∙ head_of whole in
      record {
        sized = k.sized;
        room = omega (arith, k.room);
        tail_in = k.tail_in;
        head_at = k.head_at ∙ ap (λ n. (s.ring.tail + n) % cap) (omega arith);
        cells =
            ap (λ i. window none s.ring.slots cap i (length pending)) (omega arith) ∙ ap tail whole;
        free = λ e. omega (arith, k.free e);
        written = k.written;
        busy = λ e. absurd (ground arith);
        handed =
            k.handed
            ∙ ap (λ v. s.received ++ (v ∷ map some pending)) (sym first)
            ∙ sym (
                append_assoc s.received (get_or s.ring.slots s.ring.tail none ∷ [])
                  (map some pending));
      }

  pub clear :
      (pending : List A) (s : Threads A)
      → held s.consumer ≡ 1
      → Agrees cap pending s
      → Agrees cap pending (consume_at cap clearing s)
  unfolding consume_at
  clear pending s one_held k =
      let apart : s.ring.tail ≢ s.ring.head = λ e.
        mod-ne cap s.ring.tail (1 + length pending) (omega arith) (omega (arith, k.room)) (
          mod-eq_of_lt k.tail_in
          ∙ e
          ∙ k.head_at
          ∙ ap (λ n. (s.ring.tail + (n + length pending)) % cap) one_held) in
      let outside : (j : ℕ) → j < length pending → s.ring.tail ≢ (s.ring.tail + 1 + j) % cap =
        λ j hj e.
          mod-ne cap s.ring.tail (suc j) (omega arith) (omega (arith, k.room))
            (mod-eq_of_lt k.tail_in ∙ e ∙ ap (λ i. i % cap) (omega arith)) in
      record {
        sized = length-set s.ring.slots s.ring.tail none ∙ k.sized;
        room = omega (arith, k.room);
        tail_in = k.tail_in;
        head_at = k.head_at ∙ ap (λ n. (s.ring.tail + (n + length pending)) % cap) one_held;
        cells =
            window-set_outside none s.ring.slots cap (s.ring.tail + 1) (length pending) s.ring.tail
              none outside
            ∙ ap (λ n. window none s.ring.slots cap (s.ring.tail + n) (length pending))
                (sym one_held)
            ∙ k.cells;
        free = λ e. omega (arith, k.free e);
        written = Written-set s.producer s.ring.slots s.ring.head s.ring.tail apart k.written;
        busy = λ e. absurd (ground arith);
        handed = k.handed;
      }

  pub release :
      (pending : List A) (s : Threads A)
      → held s.consumer ≡ 1
      → Agrees cap pending s
      → Agrees cap pending (consume_at cap releasing s)
  unfolding consume_at increment
  release pending s one_held k =
      let inside : (s.ring.tail + 1) % cap < cap =
        mod-lt (s.ring.tail + 1) (omega (arith, k.tail_in)) in
      record {
        sized = k.sized;
        room = omega (arith, k.room);
        tail_in = inside;
        head_at =
            k.head_at
            ∙ ap (λ i. i % cap) (omega arith)
            ∙ sym (mod-add-mod (s.ring.tail + 1) cap (length pending))
            ∙ ap (λ i. i % cap) (omega arith);
        cells =
            window_mod none s.ring.slots cap ((s.ring.tail + 1) % cap + 0)
              (s.ring.tail + held s.consumer) (length pending)
              (ap (λ i. i % cap) (omega arith)
                ∙ mod-eq_of_lt inside
                ∙ ap (λ n. (s.ring.tail + n) % cap) (sym one_held))
            ∙ k.cells;
        free = λ e. omega (arith, k.free e);
        written = k.written;
        busy = λ e. absurd (ground arith);
        handed = k.handed;
      }
