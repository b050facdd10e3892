-- ===== src/Protocol/Login/Wrap.antt =====
-- `outbuf_wrap` of src/protocol_login.c, step by step, on the memory of the buffer.
use kaplarc.Base.{
  ℕ, zero, suc, ◌+◌, ◌-◌, ◌%◌, ◌≤◌, ◌≡◌, refl, sym, ap, ◌∙◌, arith, Option, none, some, List, [],
  ◌∷◌, ◌++◌, length, length-append, drop, replicate, append_assoc, bit_and, ◌>>=◌,
}
use kaplarc.Base.Bits.{and_ones_mod}
use kaplarc.Codec.Portable.{encode_u8}
use kaplarc.Memory.Outbuf.{write_at, outbuf_write_byte}
use kaplarc.Protocol.Login.{pad}

pub write_at-append :
    (f : List ℕ → Option (List ℕ)) (xs q : List ℕ)
    → write_at f (length xs) (xs ++ q) ≡ (f q >>= λ r. some (xs ++ r))
unfolding write_at
write_at-append f [] q = whole (f q)
  where
    whole : (o : Option (List ℕ)) → o ≡ (o >>= λ r. some r)
    whole none = refl
    whole (some r) = refl
write_at-append f (x ∷ xs) q = rw (write_at-append f xs q) (behind (f q))
  where
    behind :
        (o : Option (List ℕ))
        → ((o >>= λ r. some (xs ++ r)) >>= λ rest. some (x ∷ rest))
          ≡ (o >>= λ r. some (x ∷ (xs ++ r)))
    behind none = refl
    behind (some r) = refl

-- The padding bytes go behind what is written.
pub pad-append :
    (n : ℕ) (xs q : List ℕ)
    → n ≤ length q
    → pad n (record { ptr = length xs; base = xs ++ q })
      ≡ some (record { ptr = length xs + n; base = xs ++ (replicate n 0x33 ++ drop n q) })
unfolding pad outbuf_write_byte encode_u8
pad-append zero xs q h =
    ap (λ (p : ℕ). some (record { ptr = p; base = xs ++ q })) {x = length xs} {y = length xs + 0}
      (omega arith)
pad-append (suc n) xs [] h = absurd (omega arith)
pad-append (suc n) xs (d ∷ q) h =
    let one : write_at (λ p. encode_u8 p 0x33) (length xs) (xs ++ (d ∷ q))
        ≡ some ((xs ++ (0x33 ∷ [])) ++ q) =
      write_at-append (λ p. encode_u8 p 0x33) xs (d ∷ q)
      ∙ ap some (sym (append_assoc xs (0x33 ∷ []) q)) in
    let size : length xs + 1 ≡ length (xs ++ (0x33 ∷ [])) =
      omega (arith, length-append xs (0x33 ∷ [])) in
    rw
      (
        one,
        size,
        pad-append n (xs ++ (0x33 ∷ [])) q (omega arith),
        append_assoc xs (0x33 ∷ []) (replicate n 0x33 ++ drop n q),
      )
      (ap
        (λ (p : ℕ). some (record { ptr = p; base = xs ++ (0x33 ∷ (replicate n 0x33 ++ drop n q)) }))
        {x = length (xs ++ (0x33 ∷ [])) + n} {y = length xs + suc n}
        (omega (arith, length-append xs (0x33 ∷ []))))

-- How many bytes fill the last block.
pub padding_lem : (n : ℕ) → bit_and (8 - bit_and n 7) 7 ≡ (8 - n % 8) % 8
padding_lem n = and_ones_mod 3 (8 - bit_and n 7) ∙ ap (λ (k : ℕ). (8 - k) % 8) (and_ones_mod 3 n)
