-- ===== src/Rtp/SenderOpt.antt =====
-- Lab2/My Codes/sender_def.c with selective acknowledgements: `sendMessageOpt` and `send_again`.
-- The array `acked` is a function of the index, and an access outside its 100000 elements is a
-- fault (`none`).
pub mod Acked
pub mod Turn
pub mod Bounds
mod Examples
use computer_network_labs.Prelude.{
  ℕ, zero, suc, ◌+◌, ◌-◌, ◌%◌, ◌^◌, true, false, not, List, [], ◌∷◌, ◌++◌, Option, none, some, ltb,
  leb, ◌==◌, if◌then◌else◌, drop, length,
}
use computer_network_labs.Rtp.Header.{Header, decode}
use computer_network_labs.Rtp.Packet.{file_statics, data_datagram}
use computer_network_labs.Rtp.Receiver.{update}
use computer_network_labs.Rtp.Sender.{Sender, Poll, recv_buffer, is_ack}

-- The length of `acked`.
abbrev pub acked_size : ℕ
acked_size = 100000

pub record SenderOpt : Type 0 where
  pub window : Sender
  pub acked : ℕ → ℕ

-- `if (next_seq_num < send_base)`
unfoldable pub catch_up : Sender → Sender
catch_up s = if ltb s.next_seq_num s.send_base then record s { next_seq_num = s.send_base } else s

-- The next packet, if it is before the end of the window.
unfoldable pub send_next_opt : List ℕ → Sender → Sender × List (List ℕ)
send_next_opt file s =
    if ltb s.next_seq_num ((s.send_base + s.window) % 2 ^ 32)
    then (
      record s { next_seq_num = (s.next_seq_num + 1) % 2 ^ 32 },
      data_datagram file s.next_seq_num ∷ [],
    )
    else (s, [])

-- One acknowledgement: `acked[ack.seq_num] = 1`.
unfoldable pub mark_ack : Header → (ℕ → ℕ) → Option (ℕ → ℕ)
mark_ack ack acked =
    if is_ack ack
    then (if ltb ack.seq_num acked_size then some (update acked ack.seq_num 1) else none)
    else some acked

-- `while (recv_len >= 11)` over the datagram, 11 bytes a round; `fuel` rounds at most.
unfoldable pub mark_acks : ℕ → List ℕ → (ℕ → ℕ) → Option (ℕ → ℕ)
unfolding mark_ack
mark_acks zero datagram acked = some acked
mark_acks (suc fuel) datagram acked = elim (leb 11 (length datagram)) [
  | true ↦ elim (mark_ack (decode datagram) acked) [
    | none ↦ none
    | some acked' ↦ mark_acks fuel (drop 11 datagram) acked'
  ]
  | false ↦ some acked
]

-- `while (acked[send_base] == 1)`, with one round for each index from `send_base` on. After the
-- last one the test reads behind the end of the array, which is the fault.
unfoldable pub advance_rounds : ℕ → (ℕ → ℕ) → ℕ → Option ℕ
advance_rounds zero acked base = none
advance_rounds (suc n) acked base =
    let rest = advance_rounds n acked (base + 1) in if acked base == 1 then rest else some base

unfoldable pub advance : (ℕ → ℕ) → ℕ → Option ℕ
unfolding advance_rounds
advance acked base = advance_rounds (acked_size - base) acked base

-- The loop of `send_again` over `n` numbers from `p` on, after the datagrams `sent` so far, the
-- last one first.
unfoldable pub send_again_from : ℕ → List ℕ → (ℕ → ℕ) → ℕ → List (List ℕ) → Option (List (List ℕ))
send_again_from zero file acked p sent = some sent
send_again_from (suc n) file acked p sent =
    let rest =
      send_again_from n file acked (p + 1)
        (if acked p == 0 then data_datagram file p ∷ sent else sent) in
    if ltb p acked_size then rest else none

unfoldable pub send_again : List ℕ → Sender → (ℕ → ℕ) → List (List ℕ) → Option (List (List ℕ))
unfolding send_again_from
send_again file s acked sent =
    send_again_from (s.next_seq_num - s.send_base) file acked s.send_base sent

-- The rest of a turn once `send_base` has been changed: the timer.
unfoldable pub on_timer_opt :
    List ℕ → Poll → SenderOpt → List (List ℕ) → Option (SenderOpt × List (List ℕ))
unfolding send_again
on_timer_opt file w t sent = elim w.expired [
  | false ↦ some (t, sent)
  | true ↦ elim (send_again file t.window t.acked sent) [ none ↦ none | some out ↦ some (t, out) ]
]

-- The part of a turn from the acknowledgements on.
unfoldable pub receive_turn_opt :
    List ℕ → Poll → SenderOpt → List (List ℕ) → Option (SenderOpt × List (List ℕ))
unfolding mark_acks advance on_timer_opt
receive_turn_opt file w t sent =
    let d = recv_buffer w.received in
    elim (mark_acks (length d) d t.acked) [
      | none ↦ none
      | some acked ↦ elim (advance acked t.window.send_base) [
        | none ↦ none
        | some base ↦
            on_timer_opt file w
              (record { window = record t.window { send_base = base }; acked = acked }) sent
      ]
    ]

-- The body of the loop of `sendMessageOpt` behind its first test: the state, and the datagrams
-- sent, the last one first.
unfoldable pub send_turn_opt : List ℕ → SenderOpt → Poll → Option (SenderOpt × List (List ℕ))
unfolding catch_up send_next_opt receive_turn_opt
send_turn_opt file t w =
    let (s, sent) = send_next_opt file (catch_up t.window) in
    receive_turn_opt file w (record t { window = s }) sent

-- A run of `sendMessageOpt` over the turns that come: still going, returned 0, or faulted.
pub data Run : Type 0 where
  going : SenderOpt → List (List ℕ) → Run
  returned : SenderOpt → List (List ℕ) → Run
  faulted : Run

-- The loop of `sendMessageOpt`; `sent` are the datagrams so far, the last one first.
unfoldable pub send_loop_opt : List ℕ → SenderOpt → List (List ℕ) → List Poll → Run
unfolding send_turn_opt
send_loop_opt file t sent [] =
    if leb (file_statics (length file)) t.window.send_base then returned t sent else going t sent
send_loop_opt file t sent (w ∷ ws) = elim (leb (file_statics (length file)) t.window.send_base) [
  | true ↦ returned t sent
  | false ↦ elim (send_turn_opt file t w) [
    | none ↦ faulted
    | some out ↦ send_loop_opt file out.0 (out.1 ++ sent) ws
  ]
]

-- `memset(acked, 0, sizeof(acked))`
abbrev pub clear_acked : SenderOpt → SenderOpt
clear_acked t = record t { acked = λ i. 0 }

-- `sendMessageOpt`: the array is cleared before the loop.
unfoldable pub send_message_opt : List ℕ → SenderOpt → List Poll → Run
unfolding send_loop_opt
send_message_opt file t ws = send_loop_opt file (clear_acked t) [] ws
