-- ===== src/Sockets/Transfer.antt =====
-- libs/Networking/socket_io: from the buffer of send_all_data to that of recv_all_data.
use cmake_template.Prelude.{
  some, false, ℤ, List, ℕ, ◌≡◌, ◌<◌, ◌≤◌, take, ◌++◌, length, drop, ltb_ℤ, refl, ◌∙◌, ap, arith,
}
use cmake_template.Core.{success, ok}
use cmake_template.Sockets.{send_all_data, Send, Recv, recv_all_data, min_socket}
use cmake_template.Sockets.Bytes.{take-take}
use cmake_template.Sockets.Send.{send_all_data-IsSent, SendBounded, IsSent}
use cmake_template.Sockets.Receive.{recv_all_data-IsReceived, RecvInOrder, IsReceived}

sent_whole : (buffer wire : List ℕ) (n : ℕ) → IsSent buffer n (success, wire) → wire ≡ take n buffer
sent_whole buffer wire n (front, _, ends) =
    let whole : length wire ≡ n = ends.0 refl in rw whole at front

received_whole :
    (stream buffer filled : List ℕ) (n : ℕ)
    → IsReceived stream buffer n (success, some filled)
    → filled ≡ take n stream ++ drop n buffer
received_whole stream buffer filled n (k, _, at, ends) =
    let whole : k ≡ n = ends.0 refl in rw whole at at

-- What send_all_data has put on the wire with success, recv_all_data of as many bytes stores with
-- success as the first `n` bytes of its own buffer, if recv() gives the wire's bytes in their order;
-- the rest of that buffer is as it was.
pub send_all_data-recv_all_data :
    (send : Send) (recv : Recv) (socket peer : ℤ) (buffer blank wire filled : List ℕ) (n : ℕ)
    → SendBounded send
    → RecvInOrder wire recv
    → 0 < n
    → n ≤ length buffer
    → n ≤ length blank
    → ltb_ℤ socket min_socket ≡ false
    → ltb_ℤ peer min_socket ≡ false
    → send_all_data send socket (some buffer) n ≡ ok (success, wire)
    → recv_all_data recv peer (some blank) n ≡ ok (success, some filled)
    → filled ≡ take n buffer ++ drop n blank
send_all_data-recv_all_data send recv socket peer buffer blank wire filled n bounded in_order
      some_bytes room space valid valid_peer sends receives =
    let sent = send_all_data-IsSent send socket buffer n bounded some_bytes room valid in
    let received =
      recv_all_data-IsReceived wire recv peer blank n in_order some_bytes space valid_peer in
    let on_wire = sent_whole buffer wire n (rw sends at sent) in
    received_whole wire blank filled n (rw receives at received)
    ∙ ap (λ l. l ++ drop n blank) (ap (take n) on_wire ∙ take-take n n buffer (omega arith))
