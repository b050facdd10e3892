-- ===== src/Protocol/Echo/Tests.antt =====
-- src/protocol_echo.c on the first message "ECHO!".
use kaplarc.Base.{ℕ, ◌≡◌, refl, arith, true, length-replicate, List, [], ◌∷◌, replicate}
use kaplarc.Protocol.Echo.{EchoHandle, identify, on_recv_first_message}
use kaplarc.Protocol.Echo.Answer.{IsEcho, Echoes, on_recv_first_message-Echoes}

abbrev ready_handle : EchoHandle
ready_handle = record { output_ready = true; output_buffer = replicate 1023 0 }

abbrev echo_message : List ℕ
echo_message = 69 ∷ 67 ∷ 72 ∷ 79 ∷ 33 ∷ []

echo_message_is_chosen : identify echo_message 5 ≡ true
unfolding identify
echo_message_is_chosen = refl

on_recv_first_message-Echoes_example :
    IsEcho echo_message 5
    × Echoes true (33 ∷ []) 1 (on_recv_first_message true ready_handle echo_message 5)
on_recv_first_message-Echoes_example =
    on_recv_first_message-Echoes true ready_handle echo_message 5 echo_message_is_chosen refl
      (length-replicate {A = ℕ} 1023 0) (omega arith) (omega arith)
