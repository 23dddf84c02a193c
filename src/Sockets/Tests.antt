-- ===== src/Sockets/Tests.antt =====
-- libs/Networking/socket_io: runs of the functions of socket_io.c.
use cmake_template.Prelude.{
  some, true, [], ◌∷◌, ◌≡◌, List, pos, length, arith, min, take, ℕ, refl, ap, drop, ◌++◌, suc,
  length-take, zero,
}
use cmake_template.Core.{success, ok, Returns}
use cmake_template.Sockets.{
  send_all_data, Send, Recv, recv_all_data, send_data, recv_data, set_fd_non_blocking, recv_loop,
  calculate_chunk,
}
use cmake_template.Sockets.Send.{
  send_all_data-IsSent, SendBounded, SendProgress, IsSent, send_all_data_delivers,
}
use cmake_template.Sockets.Receive.{recv_all_data-IsReceived, RecvInOrder, IsReceived}
use cmake_template.Sockets.Transfer.{send_all_data-recv_all_data}

-- One byte for each call.
abbrev one_by_one : Send
one_by_one r offered = some (min 1 (length offered))

one_by_one-SendBounded : SendBounded one_by_one
one_by_one-SendBounded r offered k e = ground arith

one_by_one-SendProgress : SendProgress one_by_one
one_by_one-SendProgress r [] h = absurd (omega arith)
one_by_one-SendProgress r (c ∷ offered) h = (0, ap some (omega arith))

abbrev one_of : List ℕ → Recv
one_of stream r done room = some (take (min 1 room) (drop done stream))

take_short : (k : ℕ) (xs : List ℕ) → take k xs ≡ take (length (take k xs)) xs
take_short zero xs = refl
take_short (suc k) [] = refl
take_short (suc k) (x ∷ xs) = ap (λ l. x ∷ l) (take_short k xs)

one_of-RecvInOrder : (stream : List ℕ) → RecvInOrder stream (one_of stream)
one_of-RecvInOrder stream r done room bytes e =
    let got : take (min 1 room) (drop done stream) ≡ bytes = cc in
    rw (← got) (
      omega (arith, length-take (min 1 room) (drop done stream)),
      take_short (min 1 room) (drop done stream),
    )

abbrev three : List ℕ
three = 1 ∷ 2 ∷ 3 ∷ []

abbrev blank_four : List ℕ
blank_four = 0 ∷ 0 ∷ 0 ∷ 9 ∷ []

-- send_data gives send() as many bytes as a pointer has, and returns what fprintf returned when the
-- other side has hung up.
pointer_sent :
    send_data
      (λ r offered. some (length offered))
      (pos 30)
      (pos 5)
      (some (1 ∷ 2 ∷ 3 ∷ 4 ∷ 5 ∷ 6 ∷ 7 ∷ 8 ∷ 9 ∷ []))
    ≡ ok (pos 0, 1 ∷ 2 ∷ 3 ∷ 4 ∷ 5 ∷ 6 ∷ 7 ∷ 8 ∷ [])
unfolding send_data
pointer_sent = refl

hung_up : recv_data (λ r done room. some []) (pos 30) (pos 5) (some three) ≡ ok (pos 30, some three)
unfolding recv_data
hung_up = refl

non_blocking : set_fd_non_blocking (some 2) true ≡ (success, some 2050)
unfolding set_fd_non_blocking
non_blocking = refl

send_all_data-IsSent_example :
    Returns (IsSent three 2) (send_all_data one_by_one (pos 5) (some three) 2)
send_all_data-IsSent_example =
    send_all_data-IsSent one_by_one (pos 5) three 2 one_by_one-SendBounded (omega arith)
      (omega arith) refl

send_all_data_delivers_example :
    send_all_data one_by_one (pos 5) (some three) 2 ≡ ok (success, 1 ∷ 2 ∷ [])
send_all_data_delivers_example =
    send_all_data_delivers one_by_one (pos 5) three 2 one_by_one-SendBounded one_by_one-SendProgress
      (omega arith) (omega arith) refl

recv_all_data-IsReceived_example :
    Returns
      (IsReceived three blank_four 3)
      (recv_all_data (one_of three) (pos 6) (some blank_four) 3)
recv_all_data-IsReceived_example =
    recv_all_data-IsReceived three (one_of three) (pos 6) blank_four 3 (one_of-RecvInOrder three)
      (omega arith) (omega arith) refl

received :
    recv_all_data (one_of three) (pos 6) (some blank_four) 3
    ≡ ok (success, some (1 ∷ 2 ∷ 3 ∷ 9 ∷ []))
unfolding recv_all_data recv_loop calculate_chunk
received = refl

send_all_data-recv_all_data_example : (1 ∷ 2 ∷ 3 ∷ 9 ∷ []) ≡ take 3 three ++ drop 3 blank_four
send_all_data-recv_all_data_example =
    send_all_data-recv_all_data one_by_one (one_of three) (pos 5) (pos 6) three blank_four three
      (1 ∷ 2 ∷ 3 ∷ 9 ∷ []) 3 one_by_one-SendBounded (one_of-RecvInOrder three) (omega arith)
      (omega arith) (omega arith) refl refl
      (send_all_data_delivers one_by_one (pos 5) three 3 one_by_one-SendBounded
        one_by_one-SendProgress (omega arith) (omega arith) refl)
      received
