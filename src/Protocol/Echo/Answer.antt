-- ===== src/Protocol/Echo/Answer.antt =====
-- What src/protocol_echo.c sends back.
use kaplarc.Base.{
  ℕ, zero, suc, ◌+◌, ◌-◌, ◌^◌, ◌≤◌, ◌<◌, ◌≡◌, ◌↔◌, refl, ap, ◌∙◌, arith, Bool, true, not, Option,
  some, List, [], ◌∷◌, ◌++◌, length, length-append, length-take, length-drop, take, take_front,
  drop, u8, u16, sub32, min, ◌>>>◌,
}
use kaplarc.Codec.Portable.{encode_u16_le}
use kaplarc.Codec.TibiaString.{memcpy}
use kaplarc.Memory.Outbuf.{write_at}
use kaplarc.Protocol.Echo.{
  EchoHandle, identify, fill_output, on_recv_message, on_recv_first_message,
}

memcpy-take :
    (n : ℕ) (out from : List ℕ)
    → n ≤ length out
    → n ≤ length from
    → memcpy n out from ≡ some (take n from ++ drop n out)
unfolding memcpy
memcpy-take zero out from h k = refl
memcpy-take (suc n) [] from h k = absurd (omega arith)
memcpy-take (suc n) (o ∷ out) [] h k = absurd (omega arith)
memcpy-take (suc n) (o ∷ out) (b ∷ from) h k =
    rw (memcpy-take n out from (omega arith) (omega arith)) refl

-- The output buffer, once the length and `n` bytes of the message are stored.
output_lem :
    (n : ℕ) (out input : List ℕ)
    → n + 2 ≤ length out
    → n ≤ length input
    → (buffer : List ℕ) × (fill_output out input n ≡ some buffer)
      × (take (n + 2) buffer ≡ u8 (u16 n) ∷ u8 (u16 n >>> 8) ∷ take n input)
      × (length buffer ≡ length out)
unfolding fill_output write_at encode_u16_le
output_lem n [] input fits room = absurd (omega arith)
output_lem n (d0 ∷ []) input fits room = absurd (omega arith)
output_lem n (d0 ∷ d1 ∷ q) input fits room =
    let taken : length (take n input) ≡ n = ground (arith, length-take n input) in
    let head = u8 (u16 n) in
    let next = u8 (u16 n >>> 8) in
    (
      head ∷ next ∷ (take n input ++ drop n q),
      rw (memcpy-take n q input (omega arith) room) refl,
      ap (λ (k : ℕ). take k (head ∷ next ∷ (take n input ++ drop n q))) {x = n + 2}
            {y = suc (suc (length (take n input)))} (omega (arith, taken))
          ∙ ap (λ l. head ∷ next ∷ l) (take_front (take n input) (drop n q)),
      omega (arith, taken, length-append (take n input) (drop n q), length-drop n q),
    )

-- As much of a message as fits, behind its length.
abbrev pub echo_of : List ℕ → ℕ → List ℕ
echo_of input datalen = let n = min datalen 1021 in u8 (u16 n) ∷ u8 (u16 n >>> 8) ∷ take n input

-- The bytes that are sent, and a handle that keeps the size of its buffer and is ready for another
-- message exactly when the connection has not taken them.
abbrev pub Echoes : Bool → List ℕ → ℕ → Option (Option (List ℕ) × EchoHandle) → Type 0
Echoes accepted input datalen r =
    (h' : EchoHandle) × (r ≡ some (some (echo_of input datalen), h'))
    × (length h'.output_buffer ≡ 1023)
    × (h'.output_ready ≡ not accepted)

-- A message of at least four bytes that starts with "ECHO".
abbrev pub IsEcho : List ℕ → ℕ → Type 0
IsEcho input datalen = (take 4 input ≡ 69 ∷ 67 ∷ 72 ∷ 79 ∷ []) × (4 ≤ datalen)

-- Only such a message is selected.
identify-IsEcho :
    (input : List ℕ) (datalen : ℕ) → identify input datalen ≡ true → IsEcho input datalen
unfolding identify
identify-IsEcho (e ∷ c ∷ h ∷ o ∷ _) datalen chosen = ground arith
identify-IsEcho _ datalen chosen = absurd (cc)

-- Every such message is selected.
IsEcho-identify :
    (input : List ℕ) (datalen : ℕ) → IsEcho input datalen → identify input datalen ≡ true
unfolding identify
IsEcho-identify (e ∷ c ∷ h ∷ o ∷ _) datalen is = ground arith
IsEcho-identify [] datalen is = absurd (cc)
IsEcho-identify (e ∷ []) datalen is = absurd (cc)
IsEcho-identify (e ∷ c ∷ []) datalen is = absurd (cc)
IsEcho-identify (e ∷ c ∷ h ∷ []) datalen is = absurd (cc)

-- The protocol is selected by the messages of at least four bytes that start with "ECHO", and by no
-- others.
pub identify_lem :
    (input : List ℕ) (datalen : ℕ) → (identify input datalen ≡ true) ↔ IsEcho input datalen
identify_lem input datalen = (identify-IsEcho input datalen, IsEcho-identify input datalen)

-- A ready handle, with its buffer of 1023 bytes, answers a message that lies in the input with as
-- much of it as fits behind its length.
pub on_recv_message-Echoes :
    (accepted : Bool) (h : EchoHandle) (input : List ℕ) (datalen : ℕ)
    → h.output_ready ≡ true
    → length h.output_buffer ≡ 1023
    → datalen ≤ length input
    → Echoes accepted input datalen (on_recv_message accepted h input datalen)
unfolding on_recv_message
on_recv_message-Echoes accepted h input datalen ready size room =
    let n = min datalen 1021 in
    let (buffer, e, sent, kept) =
      output_lem n h.output_buffer input (ground arith) (ground arith) in
    (
      record { output_ready = not accepted; output_buffer = buffer },
      rw (ready, e, sent) refl,
      kept ∙ size,
      refl,
    )

-- A message that the protocol is selected by, and that lies in the input, has at least four bytes and
-- starts with "ECHO"; a ready handle, with its buffer of 1023 bytes, answers it with as much as fits
-- of what follows these four bytes, behind the length.
pub on_recv_first_message-Echoes :
    (accepted : Bool) (h : EchoHandle) (input : List ℕ) (datalen : ℕ)
    → identify input datalen ≡ true
    → h.output_ready ≡ true
    → length h.output_buffer ≡ 1023
    → datalen ≤ length input
    → datalen < 2 ^ 32
    → IsEcho input datalen
      × Echoes accepted
          (drop 4 input)
          (datalen - 4)
          (on_recv_first_message accepted h input datalen)
unfolding on_recv_first_message
on_recv_first_message-Echoes accepted h input datalen chosen ready size room small =
    let is = identify-IsEcho input datalen chosen in
    let less : sub32 datalen 4 ≡ datalen - 4 = omega arith in
    (
      is,
      rw less (
          on_recv_message-Echoes accepted h (drop 4 input) (datalen - 4) ready size
            (omega (arith, length-drop 4 input))),
    )
