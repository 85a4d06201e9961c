-- ===== src/Objects/Numbers.antt =====
-- The numbers of the commands that one thread constructs, one after the other.
use service_excutor.Prelude.{ℕ, zero, suc, ◌+◌, ◌*◌, ◌%◌, ◌^◌, ◌<◌, ◌≡◌, ◌≢◌, Text, arith}
use service_excutor.Objects.Commands.{next_number, init_header, init_object, new_object}

-- The counter after some commands, and the number of the command that is constructed next.
unfoldable pub counter_after : Text → ℕ → ℕ → ℕ → ℕ
counter_after self_name tid counter zero = counter
counter_after self_name tid counter (suc k) =
    (new_object self_name tid (counter_after self_name tid counter k)).1

unfoldable pub number_of : Text → ℕ → ℕ → ℕ → ℕ
unfolding counter_after
number_of self_name tid counter k =
    (new_object self_name tid (counter_after self_name tid counter k)).0.header.sequence

counter_lem :
    (self_name : Text) (tid counter k : ℕ)
    → counter < 2 ^ 16
    → counter_after self_name tid counter k ≡ (counter + 2 * k) % 2 ^ 16
unfolding counter_after new_object init_object init_header next_number
counter_lem self_name tid counter zero h = omega (arith, h)
counter_lem self_name tid counter (suc k) h = omega (arith, counter_lem self_name tid counter k h)

number_lem :
    (self_name : Text) (tid counter k : ℕ)
    → counter < 2 ^ 16
    → number_of self_name tid counter k ≡ (tid % 2 ^ 16) * 2 ^ 16 + (counter + 2 * k + 2) % 2 ^ 16
unfolding number_of new_object init_object init_header next_number
number_lem self_name tid counter k h = omega (arith, counter_lem self_name tid counter k h)

-- Every construction takes two of the numbers that 16 bits have room for: of the commands that a
-- thread constructs without another thread's between them, any two that are less than 2 ^ 15 apart
-- have different numbers, and two that are 2 ^ 15 apart have the same. The numbers fit 32 bits.
pub number_of-repeats :
    (self_name : Text) (tid counter k d : ℕ)
    → counter < 2 ^ 16
    → 0 < d
    → d < 2 ^ 15
    → (number_of self_name tid counter (k + d) ≢ number_of self_name tid counter k)
      × (number_of self_name tid counter (k + 2 ^ 15) ≡ number_of self_name tid counter k)
      × (number_of self_name tid counter k < 2 ^ 32)
number_of-repeats self_name tid counter k d h g f =
    let a = number_lem self_name tid counter k h in
    let b = number_lem self_name tid counter (k + d) h in
    let c = number_lem self_name tid counter (k + 2 ^ 15) h in
    (λ e. omega (arith, a, b, e, f, g), omega (arith, a, c), omega (arith, a))
