-- ===== src/Market/Spsc/Threads/Agrees.antt =====
-- What the state of the ring and of the threads keeps to, and the steps of the producer and of the consumer's
-- test.
use mathlib.Core.Path.{ap₂}
use native.Mathlib.Decide.{dec_lt}
use native.Mathlib.Nat.{mod-lt, mod-add-mod, mod-eq_of_lt, mod-eq-sub-mod}
use mathlib.Core.List.{append_assoc}
use sentum.Prelude.{
  ℕ, suc, ◌+◌, ◌-◌, ◌%◌, ◌<◌, ◌≡◌, refl, sym, ap, ◌∙◌, ◌≢◌, Bool, true, false, Option, none, some,
  List, [], ◌∷◌, ◌++◌, map, arith, ◌==◌, length, length-replicate, length-append, get_or, set,
  if-elim,
}
use sentum.Circular.{
  mod-ne, length-set, get_or-set_self, get_or-set_ne, window, window_last, window-set_outside,
}
use sentum.Market.Spsc.{increment}
use sentum.Market.Spsc.Threads.{
  Producer, writing, publishing, Consumer, moving, clearing, releasing, Threads, new_threads,
  produce_at, consume_at,
}

-- One cell is still held by a consumer that has moved its value out.
abbrev pub held : Consumer → ℕ
held Consumer.outside = 0
held moving = 0
held clearing = 1
held releasing = 1

abbrev pub has_room : {A : Type 0} → Producer A → Bool
has_room Producer.outside = false
has_room (writing value) = true
has_room (publishing value) = true

abbrev pub Written : {A : Type 0} → Producer A → List (Option A) → ℕ → Type 0
Written Producer.outside slots head = Unit
Written (writing value) slots head = Unit
Written (publishing value) slots head = get_or slots head none ≡ some value

abbrev pub is_moving : Consumer → Bool
is_moving moving = true
is_moving Consumer.outside = false
is_moving clearing = false
is_moving releasing = false

Written-value :
    {A : Type 0} (p : Producer A) (slots : List (Option A)) (head : ℕ) (value : A)
    → p ≡ publishing value
    → Written p slots head
    → get_or slots head none ≡ some value
Written-value Producer.outside slots head value e w = absurd (ground arith)
Written-value (writing other) slots head value e w = absurd (ground arith)
Written-value (publishing other) slots head value e w = ground arith

pub Written-set :
    {A : Type 0} (p : Producer A) (slots : List (Option A)) (head at : ℕ)
    → at ≢ head
    → Written p slots head
    → Written p (set slots at none) head
Written-set Producer.outside slots head at apart w = tt
Written-set (writing value) slots head at apart w = tt
Written-set (publishing value) slots head at apart w =
    get_or-set_ne slots at head none none apart ∙ w

map_snoc :
    {A : Type 0} (xs : List A) (x : A) → map some (xs ++ (x ∷ [])) ≡ map some xs ++ (some x ∷ [])
map_snoc [] x = refl
map_snoc (y ∷ xs) x = ap (λ t. some y ∷ t) (map_snoc xs x)

module _ {A : Type 0} (cap : ℕ) where
  -- `pending` are the values that were accepted and not moved out yet.
  pub record Agrees (pending : List A) (s : Threads A) : Type 0 where
    pub sized : length s.ring.slots ≡ cap
    pub room : held s.consumer + length pending < cap
    pub tail_in : s.ring.tail < cap
    pub head_at : s.ring.head ≡ (s.ring.tail + (held s.consumer + length pending)) % cap
    pub cells :
        window none s.ring.slots cap (s.ring.tail + held s.consumer) (length pending)
        ≡ map some pending
    pub free : has_room s.producer ≡ true → held s.consumer + length pending + 1 < cap
    pub written : Written s.producer s.ring.slots s.ring.head
    pub busy : is_moving s.consumer ≡ true → 0 < length pending
    pub handed : map some s.accepted ≡ s.received ++ map some pending

  pub new_threads-Agrees : 1 < cap → Agrees [] (new_threads cap)
  new_threads-Agrees h = record {
    sized = length-replicate cap none;
    room = omega arith;
    tail_in = omega arith;
    head_at = sym (mod-eq_of_lt {n = 0} {m = cap} (omega arith));
    cells = refl;
    free = λ e. absurd (ground arith);
    written = tt;
    busy = λ e. absurd (ground arith);
    handed = refl;
  }

  module _ (pending : List A) (s : Threads A) (k : Agrees pending s) where
    next_head :
        increment cap s.ring.head ≡ (s.ring.tail + (held s.consumer + length pending + 1)) % cap
    unfolding increment
    next_head =
        ap (λ h. (h + 1) % cap) k.head_at
        ∙ mod-add-mod (s.ring.tail + (held s.consumer + length pending)) cap 1
        ∙ ap (λ i. i % cap) (omega arith)

    -- The test of the producer fails if one cell only is free.
    not_full :
        (increment cap s.ring.head == s.ring.tail) ≡ false
        → held s.consumer + length pending + 1 < cap
    not_full open_test = elim (dec_lt (held s.consumer + length pending + 1) cap) [
      | yes free ↦ free
      | no full ↦
          let n : ℕ = s.ring.tail + (held s.consumer + length pending + 1) in
          let round : n % cap ≡ (n - cap) % cap =
            mod-eq-sub-mod {n = n} {m = cap} (omega (arith, k.room)) in
          let back : (n - cap) % cap ≡ n - cap =
            mod-eq_of_lt {n = n - cap} {m = cap} (omega (arith, k.room, k.tail_in)) in
          let same : increment cap s.ring.head ≡ s.ring.tail =
            omega (arith, next_head, round, back, k.room, k.tail_in) in
          absurd (ground arith)
    ]

    head_in : s.ring.head < cap
    head_in =
        let below : (s.ring.tail + (held s.consumer + length pending)) % cap < cap =
          mod-lt (s.ring.tail + (held s.consumer + length pending)) (omega (arith, k.tail_in)) in
        omega (arith, k.head_at, below)

    -- The cell of `head_` is none of those that hold a value.
    head_apart :
        (j : ℕ) → j < length pending → s.ring.head ≢ (s.ring.tail + held s.consumer + j) % cap
    head_apart j hj e =
        mod-ne cap (s.ring.tail + held s.consumer + j) (length pending - j) (omega arith)
          (omega (arith, k.room)) (sym e ∙ k.head_at ∙ ap (λ i. i % cap) (omega arith))

    not_empty : held s.consumer ≡ 0 → (s.ring.tail == s.ring.head) ≡ false → 0 < length pending
    not_empty nothing_held filled = elim (dec_lt 0 (length pending)) [
      | yes some_left ↦ some_left
      | no none_left ↦
          let same : s.ring.head ≡ s.ring.tail =
            k.head_at ∙ ap (λ i. i % cap) (omega arith) ∙ mod-eq_of_lt k.tail_in in
          absurd (ground arith)
    ]

    pub push_test :
        (value : A)
        → s.producer ≡ Producer.outside
        → Agrees pending (produce_at cap Producer.outside s value)
    unfolding produce_at
    push_test value here =
        if-elim (Agrees pending) (increment cap s.ring.head == s.ring.tail) (λ _. k)
          (λ open_test. record {
            sized = k.sized;
            room = k.room;
            tail_in = k.tail_in;
            head_at = k.head_at;
            cells = k.cells;
            free = λ _. not_full open_test;
            written = tt;
            busy = k.busy;
            handed = k.handed;
          })

    pub push_write :
        (value other : A)
        → s.producer ≡ writing value
        → Agrees pending (produce_at cap (writing value) s other)
    unfolding produce_at
    push_write value other here = record {
      sized = length-set s.ring.slots s.ring.head (some value) ∙ k.sized;
      room = k.room;
      tail_in = k.tail_in;
      head_at = k.head_at;
      cells =
          window-set_outside none s.ring.slots cap (s.ring.tail + held s.consumer) (length pending)
            s.ring.head (some value) head_apart
          ∙ k.cells;
      free = λ _. k.free (rw here refl);
      written =
          get_or-set_self s.ring.slots s.ring.head (some value) none
            (omega (arith, k.sized, head_in));
      busy = k.busy;
      handed = k.handed;
    }

    pub push_publish :
        (value other : A)
        → s.producer ≡ publishing value
        → Agrees (pending ++ (value ∷ [])) (produce_at cap (publishing value) s other)
    unfolding produce_at
    push_publish value other here =
        let one_more : length (pending ++ (value ∷ [])) ≡ suc (length pending) =
          omega (arith, length-append pending (value ∷ [])) in
        let fits : held s.consumer + length pending + 1 < cap = k.free (rw here refl) in
        let last : get_or s.ring.slots ((s.ring.tail + held s.consumer + length pending) % cap) none
            ≡ some value =
          ap (λ i. get_or s.ring.slots i none) (ap (λ i. i % cap) (omega arith) ∙ sym k.head_at)
          ∙ Written-value s.producer s.ring.slots s.ring.head value here k.written in
        record {
          sized = k.sized;
          room = omega arith;
          tail_in = k.tail_in;
          head_at = next_head ∙ ap (λ n. (s.ring.tail + n) % cap) (omega arith);
          cells =
              ap (window none s.ring.slots cap (s.ring.tail + held s.consumer)) one_more
              ∙ window_last none s.ring.slots cap (s.ring.tail + held s.consumer) (length pending)
              ∙ ap₂ ◌++◌ k.cells (ap (λ v. v ∷ []) last)
              ∙ sym (map_snoc pending value);
          free = λ e. absurd (ground arith);
          written = tt;
          busy = λ e. omega arith;
          handed =
              map_snoc s.accepted value
              ∙ ap (λ l. l ++ (some value ∷ [])) k.handed
              ∙ append_assoc s.received (map some pending) (some value ∷ [])
              ∙ ap (λ l. s.received ++ l) (sym (map_snoc pending value));
        }

    pub pop_test :
        s.consumer ≡ Consumer.outside → Agrees pending (consume_at cap Consumer.outside s)
    unfolding consume_at
    pop_test here =
        let nothing_held : held s.consumer ≡ 0 = rw here refl in
        if-elim (Agrees pending) (s.ring.tail == s.ring.head) (λ _. k)
          (λ filled. record {
            sized = k.sized;
            room = omega (arith, k.room);
            tail_in = k.tail_in;
            head_at = k.head_at ∙ ap (λ n. (s.ring.tail + (n + length pending)) % cap) nothing_held;
            cells =
                ap (λ n. window none s.ring.slots cap (s.ring.tail + n) (length pending))
                  (sym nothing_held)
                ∙ k.cells;
            free = λ e. omega (arith, k.free e);
            written = k.written;
            busy = λ _. not_empty nothing_held filled;
            handed = k.handed;
          })
