-- ===== src/Crypto/Xtea/Rounds.antt =====
-- The decoding rounds undo the encoding rounds.
use kaplarc.Base.{
  ℕ, zero, suc, ◌+◌, ◌*◌, ◌%◌, ◌^◌, ◌<◌, ◌≡◌, refl, ap, ◌∙◌, arith, List, u32, sub32,
}
use kaplarc.Crypto.Xtea.{Block, delta, encode_round, decode_round, repeat}

-- Every variable of a block is a uint32.
pub record IsWords (b : Block) : Type 0 where
  pub v0_lt : b.v0 < 2 ^ 32
  pub v1_lt : b.v1 < 2 ^ 32
  pub sum_lt : b.sum < 2 ^ 32

pub encode_round-IsWords : (k : List ℕ) (b : Block) → IsWords (encode_round k b)
unfolding encode_round
encode_round-IsWords k b = omega arith

-- Wrapping subtraction undoes wrapping addition.
sub32-add : (a m : ℕ) → a < 2 ^ 32 → sub32 (u32 (a + m)) m ≡ a
sub32-add a m h = omega arith

pub decode_round-encode_round :
    (k : List ℕ) (b : Block) → IsWords b → decode_round k (encode_round k b) ≡ b
unfolding encode_round decode_round
decode_round-encode_round k b h =
    rw (sub32-add b.sum delta h.sum_lt, sub32-add b.v1 _ h.v1_lt, sub32-add b.v0 _ h.v0_lt)

pub encode_rounds-IsWords :
    (n : ℕ) (k : List ℕ) (b : Block) → IsWords b → IsWords (repeat n (encode_round k) b)
unfolding repeat
encode_rounds-IsWords zero k b h = h
encode_rounds-IsWords (suc n) k b h =
    encode_rounds-IsWords n k (encode_round k b) (encode_round-IsWords k b)

-- A round may be made before or after the others.
repeat-suc : (n : ℕ) (f : Block → Block) (b : Block) → repeat (suc n) f b ≡ f (repeat n f b)
unfolding repeat
repeat-suc zero f b = refl
repeat-suc (suc n) f b = repeat-suc n f (f b)

pub decode_rounds-encode_rounds :
    (n : ℕ) (k : List ℕ) (b : Block)
    → IsWords b
    → repeat n (decode_round k) (repeat n (encode_round k) b) ≡ b
unfolding repeat
decode_rounds-encode_rounds zero k b h = refl
decode_rounds-encode_rounds (suc n) k b h =
    repeat-suc n (decode_round k) (repeat n (encode_round k) (encode_round k b))
    ∙ ap (decode_round k)
        (decode_rounds-encode_rounds n k (encode_round k b) (encode_round-IsWords k b))
    ∙ decode_round-encode_round k b h

-- The schedule depends on the number of rounds alone.
pub sum-encode_rounds :
    (n : ℕ) (k : List ℕ) (b : Block)
    → b.sum < 2 ^ 32
    → (repeat n (encode_round k) b).sum ≡ (b.sum + n * delta) % 2 ^ 32
unfolding repeat encode_round
sum-encode_rounds zero k b h = omega arith
sum-encode_rounds (suc n) k b h =
    omega (arith, sum-encode_rounds n k (encode_round k b) (omega arith))
