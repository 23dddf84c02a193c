-- ===== src/Sockets/Receive.antt =====
-- libs/Networking/socket_io: what recv_all_data puts in the buffer.
use cmake_template.Prelude.{
  none, some, false, [], ◌∷◌, zero, suc, List, ℕ, ◌≡◌, ◌+◌, Option, ◌≤◌, length, take, ◌++◌, drop,
  arith, ◌↔◌, length-take, length-append, length-drop, ◌∙◌, ap, sym, ◌-◌, ◌<◌, ◌⊎◌, ℤ, ltb_ℤ, inl,
  Bool-cases, inr, refl, ltb, ltb→lt,
}
use mathlib.Core.List.{append_assoc}
use cmake_template.Core.{
  ExitCode, failure, success, connection_closed, ok, Returns, Returns-bind, ◌>>=◌,
}
use cmake_template.Sockets.{
  recv_all_data, recv_loop, Recv, write_bytes, calculate_chunk, min_socket,
}
use cmake_template.Sockets.Bytes.{take_add, calculate_chunk_le, take_append, drop_append, drop_add}

-- recv() gives the bytes of the stream in their order, and no more than there is room for.
abbrev pub RecvInOrder : List ℕ → Recv → Type 0
RecvInOrder stream recv =
    (r done room : ℕ) (bytes : List ℕ)
    → recv r done room ≡ some bytes
    → (length bytes ≤ room) × (bytes ≡ take (length bytes) (drop done stream))

-- The front of the stream has replaced as many bytes of the buffer, and the end is a success exactly
-- if these are `n`.
abbrev pub IsReceived : List ℕ → List ℕ → ℕ → ExitCode × Option (List ℕ) → Type 0
IsReceived stream buffer n (code, none) = ⊥
IsReceived stream buffer n (code, some filled) =
    (k : ℕ) × ((k ≤ n) × (k ≤ length stream))
    × (filled ≡ take k stream ++ drop k buffer)
    × ((code ≡ success) ↔ (k ≡ n))

write_bytes_lem :
    (buffer : List ℕ) (position : ℕ) (bytes : List ℕ)
    → position + length bytes ≤ length buffer
    → write_bytes buffer position bytes
      ≡ ok (take position buffer ++ (bytes ++ drop (position + length bytes) buffer))
write_bytes_lem buffer position bytes h = ground arith

-- A write of the next bytes of the stream.
write_next :
    (stream buffer bytes : List ℕ) (total : ℕ)
    → total + length bytes ≤ length buffer
    → total ≤ length stream
    → bytes ≡ take (length bytes) (drop total stream)
    → write_bytes (take total stream ++ drop total buffer) total bytes
      ≡ ok (take (total + length bytes) stream ++ drop (total + length bytes) buffer)
write_next stream buffer bytes total room held next =
    let front : length (take total stream) ≡ total = omega (arith, length-take total stream) in
    let held_back = drop_append (take total stream) (drop total buffer) total front in
    let whole : total + length bytes ≤ length (take total stream ++ drop total buffer) =
      omega
        (arith, length-append (take total stream) (drop total buffer), length-drop total buffer) in
    let behind =
      drop_add total (length bytes) (take total stream ++ drop total buffer)
      ∙ ap (drop (length bytes)) held_back
      ∙ sym (drop_add total (length bytes) buffer) in
    let ahead = take_append (take total stream) (drop total buffer) total front in
    let joined : take total stream ++ (bytes ++ drop (total + length bytes) buffer)
        ≡ take (total + length bytes) stream ++ drop (total + length bytes) buffer =
      sym (append_assoc (take total stream) bytes (drop (total + length bytes) buffer))
      ∙ ap (λ l. (take total stream ++ l) ++ drop (total + length bytes) buffer) next
      ∙ ap (λ l. l ++ drop (total + length bytes) buffer)
          (sym (take_add total (length bytes) stream)) in
    rw (write_bytes_lem _ total bytes whole, ahead, behind) (ap ok joined)

module _ (stream : List ℕ) (recv : Recv) (buffer : List ℕ) (n : ℕ) where
  abbrev filled_to : ℕ → List ℕ
  filled_to total = take total stream ++ drop total buffer

  module _ (fuel round total : ℕ) where
    recv_loop_done :
        (filled : List ℕ)
        → n ≤ total
        → recv_loop (suc fuel) recv round filled n total ≡ ok (success, filled)
    unfolding recv_loop
    recv_loop_done filled h = ground arith

    module _ (more : total < n) where
      recv_loop_error :
          (filled : List ℕ)
          → recv round total (calculate_chunk n total) ≡ none
          → recv_loop (suc fuel) recv round filled n total ≡ ok (failure, filled)
      unfolding recv_loop
      recv_loop_error filled h = ground arith

      recv_loop_closed :
          (filled : List ℕ)
          → recv round total (calculate_chunk n total) ≡ some []
          → recv_loop (suc fuel) recv round filled n total ≡ ok (connection_closed, filled)
      unfolding recv_loop
      recv_loop_closed filled h = ground arith

      recv_loop_round :
          (filled next : List ℕ) (c : ℕ) (bytes : List ℕ)
          → recv round total (calculate_chunk n total) ≡ some (c ∷ bytes)
          → write_bytes filled total (c ∷ bytes) ≡ ok next
          → recv_loop (suc fuel) recv round filled n total
            ≡ recv_loop fuel recv (suc round) next n (total + length (c ∷ bytes))
      unfolding recv_loop
      recv_loop_round filled next c bytes h w = ground arith

got_cases :
    (o : Option (List ℕ))
    → (o ≡ none) ⊎ ((o ≡ some []) ⊎ ((c : ℕ) × (bytes : List ℕ) × (o ≡ some (c ∷ bytes))))
got_cases none = inl refl
got_cases (some []) = inr (inl refl)
got_cases (some (c ∷ bytes)) = inr (inr (c, bytes, refl))

-- The same, of the loop.
abbrev IsFilled : List ℕ → List ℕ → ℕ → ExitCode × List ℕ → Type 0
IsFilled stream buffer n (code, filled) = IsReceived stream buffer n (code, some filled)

module _ (stream : List ℕ) (recv : Recv) (buffer : List ℕ) (n : ℕ)
    (in_order : RecvInOrder stream recv) (room : n ≤ length buffer) where
  recv_loop_lem :
      (fuel round total : ℕ)
      → total ≤ n
      → total ≤ length stream
      → n - total < fuel
      → Returns
          (IsFilled stream buffer n)
          (recv_loop fuel recv round (filled_to stream recv buffer n total) n total)
  recv_loop_lem zero round total part held enough = absurd (omega arith)
  recv_loop_lem (suc fuel) round total part held enough = elim (Bool-cases (ltb total n)) [
    | inr done ↦
        rw
          (recv_loop_done stream recv buffer n fuel round total
            (filled_to stream recv buffer n total) (ground arith))
          (total, (part, held), refl, ground arith)
    | inl e ↦
        let more : total < n = ltb→lt total n e in
        elim (got_cases (recv round total (calculate_chunk n total))) [
          | inl error ↦
              rw
                (recv_loop_error stream recv buffer n fuel round total more
                  (filled_to stream recv buffer n total) error)
                (total, (part, held), refl, ground arith)
          | inr (inl closed) ↦
              rw
                (recv_loop_closed stream recv buffer n fuel round total more
                  (filled_to stream recv buffer n total) closed)
                (total, (part, held), refl, ground arith)
          | inr (inr (c, bytes, got)) ↦
              let (fits, next) = in_order round total (calculate_chunk n total) (c ∷ bytes) got in
              let most = calculate_chunk_le n total in
              let left : length (c ∷ bytes) ≤ length stream - total = omega (
                arith,
                ap length next,
                length-take (length (c ∷ bytes)) (drop total stream),
                length-drop total stream,
              ) in
              rw
                (recv_loop_round stream recv buffer n fuel round total more
                  (filled_to stream recv buffer n total) _ c bytes got
                  (write_next stream buffer (c ∷ bytes) total (omega arith) held next))
                (recv_loop_lem fuel (suc round) (total + length (c ∷ bytes)) (omega arith)
                  (omega arith) (omega arith))
        ]
  ]

recv_all_data-loop :
    (recv : Recv) (socket : ℤ) (buffer : List ℕ) (n : ℕ)
    → 0 < n
    → ltb_ℤ socket min_socket ≡ false
    → recv_all_data recv socket (some buffer) n
      ≡ (recv_loop (suc n) recv 0 buffer n 0 >>= λ end. ok (end.0, some end.1))
unfolding recv_all_data
recv_all_data-loop recv socket buffer n some_bytes valid = ground arith

-- recv_all_data of `n` bytes, more than none, on a valid descriptor and a buffer with room for them
-- returns, if recv() gives the stream in its order and no more than asked for: the front of the
-- stream, at most `n` bytes, stands at the front of the buffer, the rest of the buffer is as it was,
-- and the result is a success exactly if these are `n` bytes.
pub recv_all_data-IsReceived :
    (stream : List ℕ) (recv : Recv) (socket : ℤ) (buffer : List ℕ) (n : ℕ)
    → RecvInOrder stream recv
    → 0 < n
    → n ≤ length buffer
    → ltb_ℤ socket min_socket ≡ false
    → Returns (IsReceived stream buffer n) (recv_all_data recv socket (some buffer) n)
recv_all_data-IsReceived stream recv socket buffer n in_order some_bytes room valid =
    rw (recv_all_data-loop recv socket buffer n some_bytes valid) (
      Returns-bind (IsFilled stream buffer n) (IsReceived stream buffer n) _ _
        (recv_loop_lem stream recv buffer n in_order room (suc n) 0 0 (omega arith) (omega arith)
          (omega arith))
        (λ end h. h))
