-- ===== src/Sockets.antt =====
-- libs/Networking/socket_io: socket_io.c. The system calls are parameters: what each call returns.
pub mod Bytes
pub mod Send
pub mod Receive
pub mod Transfer
pub mod Open
mod Tests
use cmake_template.Prelude.{
  none, some, true, false, [], ◌∷◌, zero, suc, ℤ, Option, ℕ, List, Bool, if◌then◌else◌, ltb, pos,
  negsuc, ◌-◌, leb, ◌==◌, ltb_ℤ, not, take, ◌+◌, length, ◌++◌, drop,
}
use cmake_template.Core.{
  ExitCode, failure, success, connection_closed, ok, fault, out_of_fuel, Run, ◌>>=◌,
}
use Prim.Native.Nat.{bit_or}

-- MIN_SOCKET and MAX_BYTES
abbrev pub min_socket : ℤ
min_socket = pos 3

abbrev pub max_bytes : ℕ
max_bytes = 1400

pub calculate_chunk : ℕ → ℕ → ℕ
calculate_chunk bytes_to_process bytes_processed =
    let bytes_remaining = bytes_to_process - bytes_processed in
    if ltb max_bytes bytes_remaining then max_bytes else bytes_remaining

-- `send`: for the number of the call and the bytes that are offered, how many of them it takes, or
-- `none` for -1.
abbrev pub Send : Type 0
Send = ℕ → List ℕ → Option ℕ

-- `recv`: for the number of the call, the bytes received before and the room, the bytes that it puts
-- in the buffer, or `none` for -1.
abbrev pub Recv : Type 0
Recv = ℕ → ℕ → ℕ → Option (List ℕ)

-- `n` bytes at `position`, a fault beyond the end.
abbrev pub read_bytes : List ℕ → ℕ → ℕ → Run (List ℕ)
read_bytes buffer position n =
    if leb (position + n) (length buffer) then ok (take n (drop position buffer)) else fault

abbrev pub write_bytes : List ℕ → ℕ → List ℕ → Run (List ℕ)
write_bytes buffer position bytes =
    if leb (position + length bytes) (length buffer)
    then ok (take position buffer ++ (bytes ++ drop (position + length bytes) buffer))
    else fault

-- The loop of send_all_data; `wire` is what the calls have taken.
pub send_loop : ℕ → Send → ℕ → List ℕ → ℕ → ℕ → List ℕ → Run (ExitCode × List ℕ)
send_loop zero send round buffer bytes_to_send total_bytes_sent wire = out_of_fuel
send_loop (suc fuel) send round buffer bytes_to_send total_bytes_sent wire =
    elim (ltb total_bytes_sent bytes_to_send) [
      | true ↦
          read_bytes buffer total_bytes_sent (calculate_chunk bytes_to_send total_bytes_sent)
          >>= λ offered. elim (send round offered) [
            | none ↦ ok (failure, wire)
            | some zero ↦
                if ltb total_bytes_sent bytes_to_send
                then ok (failure, wire)
                else ok (success, wire)
            | some (suc k) ↦
                send_loop fuel send (suc round) buffer bytes_to_send (total_bytes_sent + suc k)
                  (wire ++ take (suc k) offered)
          ]
      | false ↦ ok (success, wire)
    ]

-- send_all_data; the buffer is `none` for NULL.
pub send_all_data : Send → ℤ → Option (List ℕ) → ℕ → Run (ExitCode × List ℕ)
send_all_data send socket none bytes_to_send = ok (failure, [])
send_all_data send socket (some buffer) bytes_to_send =
    if bytes_to_send == 0
    then ok (failure, [])
    else if ltb_ℤ socket min_socket
    then ok (failure, [])
    else send_loop (suc bytes_to_send) send 0 buffer bytes_to_send 0 []

-- The loop of recv_all_data.
pub recv_loop : ℕ → Recv → ℕ → List ℕ → ℕ → ℕ → Run (ExitCode × List ℕ)
recv_loop zero recv round buffer bytes_to_recv total_bytes_received = out_of_fuel
recv_loop (suc fuel) recv round buffer bytes_to_recv total_bytes_received =
    elim (ltb total_bytes_received bytes_to_recv) [
      | true ↦
          elim (recv round total_bytes_received
            (calculate_chunk bytes_to_recv total_bytes_received)) [
              | none ↦ ok (failure, buffer)
              | some [] ↦
                  if ltb total_bytes_received bytes_to_recv
                  then ok (connection_closed, buffer)
                  else ok (success, buffer)
              | some (c ∷ bytes) ↦ write_bytes buffer total_bytes_received (c ∷ bytes) >>= λ filled.
                  recv_loop fuel recv (suc round) filled bytes_to_recv
                    (total_bytes_received + length (c ∷ bytes))
            ]
      | false ↦ ok (success, buffer)
    ]

pub recv_all_data : Recv → ℤ → Option (List ℕ) → ℕ → Run (ExitCode × Option (List ℕ))
recv_all_data recv socket none bytes_to_recv = ok (failure, none)
recv_all_data recv socket (some buffer) bytes_to_recv =
    if bytes_to_recv == 0
    then ok (failure, some buffer)
    else if ltb_ℤ socket min_socket
    then ok (failure, some buffer)
    else recv_loop (suc bytes_to_recv) recv 0 buffer bytes_to_recv 0 >>= λ end.
        ok (end.0, some end.1)

-- The int that an exit code is, and `sizeof(buffer_p)`, the size of a pointer.
abbrev pub e_success : ℤ
e_success = pos 0

abbrev pub e_failure : ℤ
e_failure = negsuc 0

abbrev pub pointer_size : ℕ
pointer_size = 8

-- send_data; `printed` is what fprintf returns. The second part is what the call has taken.
pub send_data : Send → ℤ → ℤ → Option (List ℕ) → Run (ℤ × List ℕ)
send_data send printed socket none = ok (e_failure, [])
send_data send printed socket (some buffer) =
    if ltb_ℤ socket min_socket
    then ok (e_failure, [])
    else read_bytes buffer 0 pointer_size >>= λ offered. elim (send 0 offered) [
      | none ↦ ok (e_failure, [])
      | some zero ↦ ok (printed, [])
      | some (suc k) ↦ ok (e_success, take (suc k) offered)
    ]

pub recv_data : Recv → ℤ → ℤ → Option (List ℕ) → Run (ℤ × Option (List ℕ))
recv_data recv printed socket none = ok (e_failure, none)
recv_data recv printed socket (some buffer) =
    if ltb_ℤ socket min_socket then ok (e_failure, some buffer) else elim (recv 0 0 pointer_size) [
      | none ↦ ok (e_failure, some buffer)
      | some [] ↦ ok (printed, some buffer)
      | some (c ∷ bytes) ↦
          write_bytes buffer 0 (c ∷ bytes) >>= λ filled. ok (e_success, some filled)
    ]

-- create_socket on an `addr` that is not NULL. `opened` is what socket() returns, `option_set`
-- whether setsockopt succeeds, and `table` the descriptors that are open. The last part is the
-- descriptor that stands at `fd_ptr`.
abbrev pub close : ℕ → List ℕ → List ℕ
close fd [] = []
close fd (d ∷ table) = if fd == d then table else d ∷ close fd table

pub create_socket : Bool → Option ℕ → Bool → List ℕ → ℕ → ExitCode × (List ℕ × ℕ)
create_socket has_addr opened option_set table old =
    if not has_addr then (failure, (table, old)) else elim opened [
      | none ↦ (failure, (table, old))
      | some sock_fd ↦
          if option_set
          then (success, (sock_fd ∷ table, sock_fd))
          else (failure, (close sock_fd (sock_fd ∷ table), old))
    ]

-- O_NONBLOCK
abbrev pub o_nonblock : ℕ
o_nonblock = 2048

-- set_fd_non_blocking; `flags` is what fcntl(F_GETFL) returns, and `set` whether F_SETFL succeeds.
-- The second part is the flags that the descriptor then has.
pub set_fd_non_blocking : Option ℕ → Bool → ExitCode × Option ℕ
set_fd_non_blocking none set = (failure, none)
set_fd_non_blocking (some flags) set =
    if set then (success, some (bit_or flags o_nonblock)) else (failure, some flags)
