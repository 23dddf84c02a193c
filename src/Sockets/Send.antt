-- ===== src/Sockets/Send.antt =====
-- libs/Networking/socket_io: what send_all_data puts on the wire.
use cmake_template.Prelude.{
  none, some, false, [], zero, suc, List, ℕ, ◌≤◌, ◌≡◌, take, length, drop, ◌-◌, ◌↔◌, ◌<◌, arith,
  Bool-cases, ltb, inl, inr, ◌⊎◌, length-take, ◌+◌, ◌++◌, sym, ltb→lt, Option, ℤ, ap, refl, ltb_ℤ,
  length-drop,
}
use cmake_template.Core.{ExitCode, failure, success, ok, fault, out_of_fuel, Run, Returns}
use cmake_template.Sockets.{send_all_data, send_loop, Send, calculate_chunk, min_socket}
use cmake_template.Sockets.Bytes.{take_add, take-take, calculate_chunk_pos, calculate_chunk_le}

-- send() takes no more bytes than it is offered.
abbrev pub SendBounded : Send → Type 0
SendBounded send = (r : ℕ) (offered : List ℕ) (k : ℕ) → send r offered ≡ some k → k ≤ length offered

-- What was taken is the front of the buffer, up to `n` bytes, and the end is a success exactly if
-- all `n` were taken.
abbrev pub IsSent : List ℕ → ℕ → ExitCode × List ℕ → Type 0
IsSent buffer n (code, wire) =
    (wire ≡ take (length wire) buffer) × (length wire ≤ n) × ((code ≡ success) ↔ (length wire ≡ n))

taken_cases : (o : Option ℕ) → ((o ≡ none) ⊎ (o ≡ some 0)) ⊎ ((k : ℕ) × (o ≡ some (suc k)))
taken_cases none = inl (inl refl)
taken_cases (some zero) = inl (inr refl)
taken_cases (some (suc k)) = inr (k, refl)

module _ (send : Send) (buffer : List ℕ) (n : ℕ) where
  abbrev offered_at : ℕ → List ℕ
  offered_at total = take (calculate_chunk n total) (drop total buffer)

  module _ (fuel round total : ℕ) (wire : List ℕ) where
    send_loop_done :
        n ≤ total → send_loop (suc fuel) send round buffer n total wire ≡ ok (success, wire)
    unfolding send_loop
    send_loop_done h = ground arith

    module _ (more : total < n) (room : n ≤ length buffer) where
      send_loop_stop :
          (send round (offered_at total) ≡ none) ⊎ (send round (offered_at total) ≡ some 0)
          → send_loop (suc fuel) send round buffer n total wire ≡ ok (failure, wire)
      unfolding send_loop
      send_loop_stop h = ground (arith, calculate_chunk_le n total)

      send_loop_round :
          (k : ℕ)
          → send round (offered_at total) ≡ some (suc k)
          → send_loop (suc fuel) send round buffer n total wire
            ≡ send_loop fuel send
                (suc round)
                buffer
                n
                (total + suc k)
                (wire ++ take (suc k) (offered_at total))
      unfolding send_loop
      send_loop_round k h = ground (arith, calculate_chunk_le n total)

  length-offered_at :
      (total : ℕ) → n ≤ length buffer → total ≤ n → length (offered_at total) ≤ n - total
  length-offered_at total room part =
      omega (
        arith,
        length-take (calculate_chunk n total) (drop total buffer),
        calculate_chunk_le n total,
      )

  module _ (bounded : SendBounded send) (room : n ≤ length buffer) where
    wire_grows :
        (total k : ℕ) (wire : List ℕ)
        → wire ≡ take total buffer
        → k ≤ length (offered_at total)
        → wire ++ take k (offered_at total) ≡ take (total + k) buffer
    wire_grows total k wire at h =
        let below : k ≤ calculate_chunk n total =
          omega (arith, length-take (calculate_chunk n total) (drop total buffer)) in
        rw at (
          rw (take-take k (calculate_chunk n total) (drop total buffer) below)
            (sym (take_add total k buffer)))

    length-wire :
        (total : ℕ) (wire : List ℕ) → total ≤ n → wire ≡ take total buffer → length wire ≡ total
    length-wire total wire part at = omega (arith, ap length at, length-take total buffer)

    IsSent-wire :
        (total : ℕ) (wire : List ℕ) (code : ExitCode)
        → total ≤ n
        → wire ≡ take total buffer
        → (code ≡ success) ↔ (total ≡ n)
        → IsSent buffer n (code, wire)
    IsSent-wire total wire code part at ends =
        let size = length-wire total wire part at in (rw size at, omega arith, rw size ends)

    send_loop_lem :
        (fuel round total : ℕ) (wire : List ℕ)
        → total ≤ n
        → n - total < fuel
        → wire ≡ take total buffer
        → Returns (IsSent buffer n) (send_loop fuel send round buffer n total wire)
    send_loop_lem zero round total wire part enough at = absurd (omega arith)
    send_loop_lem (suc fuel) round total wire part enough at = elim (Bool-cases (ltb total n)) [
      | inr done ↦
          rw (send_loop_done fuel round total wire (ground arith))
            (IsSent-wire total wire success part at (ground arith))
      | inl e ↦
          let more : total < n = ltb→lt total n e in
          elim (taken_cases (send round (offered_at total))) [
            | inl stop ↦
                rw (send_loop_stop fuel round total wire more room stop)
                  (IsSent-wire total wire failure part at (ground arith))
            | inr (k, took) ↦
                let fits = bounded round (offered_at total) (suc k) took in
                let size = length-offered_at total room part in
                rw (send_loop_round fuel round total wire more room k took) (
                  send_loop_lem fuel (suc round) (total + suc k)
                    (wire ++ take (suc k) (offered_at total)) (omega arith) (omega arith)
                    (wire_grows total (suc k) wire at fits))
          ]
    ]

send_all_data-loop :
    (send : Send) (socket : ℤ) (buffer : List ℕ) (n : ℕ)
    → 0 < n
    → ltb_ℤ socket min_socket ≡ false
    → send_all_data send socket (some buffer) n ≡ send_loop (suc n) send 0 buffer n 0 []
unfolding send_all_data
send_all_data-loop send socket buffer n some_bytes valid = ground arith

-- send_all_data of `n` bytes, more than none, on a valid descriptor and a buffer that holds them
-- returns, if send() takes no more than it is offered: what was put on the wire is the front of the
-- buffer, in its order and at most `n` bytes, and the result is a success exactly if it is all `n`.
pub send_all_data-IsSent :
    (send : Send) (socket : ℤ) (buffer : List ℕ) (n : ℕ)
    → SendBounded send
    → 0 < n
    → n ≤ length buffer
    → ltb_ℤ socket min_socket ≡ false
    → Returns (IsSent buffer n) (send_all_data send socket (some buffer) n)
send_all_data-IsSent send socket buffer n bounded some_bytes room valid =
    rw (send_all_data-loop send socket buffer n some_bytes valid)
      (send_loop_lem send buffer n bounded room (suc n) 0 0 [] (omega arith) (omega arith) refl)

-- send() takes at least one of the bytes that it is offered.
abbrev pub SendProgress : Send → Type 0
SendProgress send =
    (r : ℕ) (offered : List ℕ) → 0 < length offered → (k : ℕ) × (send r offered ≡ some (suc k))

abbrev IsSuccess : ExitCode × List ℕ → Type 0
IsSuccess r = r.0 ≡ success

module _ (send : Send) (buffer : List ℕ) (n : ℕ) (bounded : SendBounded send)
    (progress : SendProgress send) (room : n ≤ length buffer) where
  send_loop_delivers :
      (fuel round total : ℕ) (wire : List ℕ)
      → total ≤ n
      → n - total < fuel
      → Returns IsSuccess (send_loop fuel send round buffer n total wire)
  send_loop_delivers zero round total wire part enough = absurd (omega arith)
  send_loop_delivers (suc fuel) round total wire part enough = elim (Bool-cases (ltb total n)) [
    | inr done ↦ rw (send_loop_done send buffer n fuel round total wire (ground arith)) refl
    | inl e ↦
        let more : total < n = ltb→lt total n e in
        let some_bytes : 0 < length (offered_at send buffer n total) = omega (
          arith,
          length-take (calculate_chunk n total) (drop total buffer),
          length-drop total buffer,
          calculate_chunk_pos n total more,
        ) in
        let (k, took) = progress round (offered_at send buffer n total) some_bytes in
        let fits = bounded round (offered_at send buffer n total) (suc k) took in
        let size = length-offered_at send buffer n total room part in
        rw (send_loop_round send buffer n fuel round total wire more room k took) (
          send_loop_delivers fuel (suc round) (total + suc k)
            (wire ++ take (suc k) (offered_at send buffer n total)) (omega arith) (omega arith))
  ]

IsSent-success :
    (buffer : List ℕ) (n : ℕ) (r : Run (ExitCode × List ℕ))
    → Returns (IsSent buffer n) r
    → Returns IsSuccess r
    → r ≡ ok (success, take n buffer)
IsSent-success buffer n (ok (code, wire)) sent good =
    let whole : length wire ≡ n = sent.2.0 good in
    rw good (ap (λ w. ok (success, w)) (rw whole at sent.0))
IsSent-success buffer n fault sent good = elim sent [ ]
IsSent-success buffer n out_of_fuel sent good = elim sent [ ]

-- If send() always takes at least one byte and no more than it is offered, send_all_data of `n`
-- bytes, more than none, on a valid descriptor and a buffer that holds them succeeds, and the wire
-- has the first `n` bytes of the buffer.
pub send_all_data_delivers :
    (send : Send) (socket : ℤ) (buffer : List ℕ) (n : ℕ)
    → SendBounded send
    → SendProgress send
    → 0 < n
    → n ≤ length buffer
    → ltb_ℤ socket min_socket ≡ false
    → send_all_data send socket (some buffer) n ≡ ok (success, take n buffer)
send_all_data_delivers send socket buffer n bounded progress some_bytes room valid =
    let sent =
      send_loop_lem send buffer n bounded room (suc n) 0 0 [] (omega arith) (omega arith) refl in
    let good =
      send_loop_delivers send buffer n bounded progress room (suc n) 0 0 [] (omega arith)
        (omega arith) in
    rw (send_all_data-loop send socket buffer n some_bytes valid)
      (IsSent-success buffer n _ sent good)
