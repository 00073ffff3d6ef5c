-- ===== src/Tests/Sockets.antt =====
-- socket.c on short buffers.
use stdc.Prelude.Blocks.{copy_into}
use stdc.Prelude.Int.{pos, negsuc}
use stdc.Prelude.{
  take, ℕ, ◌≡◌, ◌↔◌, refl, true, false, List, [], ◌∷◌, ◌++◌, length, drop, arith, min,
}
use stdc.Socket.Connect.{
  Calls, writable, attempt, connect_timeout, connect_timeout-restores, Stands, select_timeout,
}
use stdc.Socket.Recv.{recv_all-send_all, answer_of}
use stdc.Socket.Send.{Sends, send_all-Sends}
use stdc.Socket.Portable.{
  push_loop, want_of, copy_loop, sendfile_portable, sendfile_portable-sendfile,
}
use stdc.Socket.Sendfile.{total, refused, sendfile_loop, sendfile}
use stdc.Socket.Transfer.{
  Answer, room, interrupted, again, returned, chunk_of, send_all, recv_all, Round, timeout_seconds,
  setopt_timeout, in_time, recv_all_deadline,
}

program : Unit {0}
unfolding chunk_of send_all recv_all timeout_seconds setopt_timeout in_time recv_all_deadline
    attempt connect_timeout select_timeout sendfile_loop sendfile push_loop want_of copy_loop
    sendfile_portable copy_into answer_of
program = tt

abbrev text : List ℕ
text = 1 ∷ 2 ∷ 3 ∷ []

abbrev cut : List Answer
cut = room 2 ∷ interrupted ∷ room 5 ∷ []

abbrev steady : List Answer
steady = room 2 ∷ interrupted ∷ room 5 ∷ room 1 ∷ []

send_cut : send_all cut text [] ≡ (returned true, text)
unfolding program
send_cut = refl

send_all_fails : send_all (room 1 ∷ again ∷ []) text [] ≡ (returned false, 1 ∷ [])
unfolding program
send_all_fails = refl

recv_all_short :
    recv_all (room 2 ∷ room 2 ∷ []) 3 0 (1 ∷ 2 ∷ []) (0 ∷ 0 ∷ 0 ∷ [])
    ≡ (returned false, ([], 1 ∷ 2 ∷ 0 ∷ []))
unfolding program
recv_all_short = refl

send_all-Sends_example : Sends text [] (send_all cut text [])
send_all-Sends_example = send_all-Sends cut text []

recv_all-send_all_example :
    (recv_all cut (length text) 0 (text ++ 4 ∷ []) (0 ∷ 0 ∷ 0 ∷ 7 ∷ [])).1
    ≡ (4 ∷ [], text ++ drop (length text) (0 ∷ 0 ∷ 0 ∷ 7 ∷ []))
recv_all-send_all_example =
    recv_all-send_all cut cut text text (4 ∷ []) (0 ∷ 0 ∷ 0 ∷ 7 ∷ []) send_cut (omega arith)
      (unfold program in refl)

abbrev met : List Round
met =
    record { now = 5; accepted = true; answer = room 1 }
    ∷ record { now = 10; accepted = true; answer = room 2 }
    ∷ []

deadline_passes :
    recv_all_deadline 8 met 3 0 text (0 ∷ 0 ∷ 0 ∷ [])
    ≡ (returned false, (2 ∷ 3 ∷ [], 1 ∷ 0 ∷ 0 ∷ []))
unfolding program
deadline_passes = refl

abbrev calls : Calls
calls = record {
  readable = true;
  unblocked = true;
  connected = false;
  select = writable;
  inspected = true;
  error = 0;
  restored = true;
}

connects : connect_timeout calls 2 ≡ (true, 2)
unfolding program
connects = refl

connect_timeout-restores_example :
    (((connect_timeout calls 2).0 ≡ true) ↔ (
      (calls.readable ≡ true)
      × ((calls.unblocked ≡ true) × ((calls.restored ≡ true) × Stands calls))))
    × (((connect_timeout calls 2).0 ≡ true → (connect_timeout calls 2).1 ≡ 2)
        × (calls.restored ≡ true → (connect_timeout calls 2).1 ≡ 2))
connect_timeout-restores_example = connect_timeout-restores calls 2

carried : setopt_timeout true 1999600 ≡ (true, (2, 0))
unfolding program
carried = refl

not_carried : select_timeout 1999600 ≡ (1, 1000000)
unfolding program
not_carried = refl

abbrev file : List ℕ
file = 9 ∷ 8 ∷ 7 ∷ 6 ∷ []

sendfile_cut :
    sendfile true (room 2 ∷ again ∷ room 4 ∷ []) (pos 1) (pos 3) file [] ≡ (total 3, 8 ∷ 7 ∷ 6 ∷ [])
unfolding program
sendfile_cut = refl

sendfile_negative : sendfile true cut (negsuc 0) (pos 3) file [] ≡ (refused, [])
unfolding program
sendfile_negative = refl

portable_cut :
    sendfile_portable true true false (room 2 ∷ interrupted ∷ room 4 ∷ []) (pos 1) (pos 5) file []
    ≡ (total 3, 8 ∷ 7 ∷ 6 ∷ [])
unfolding program
portable_cut = refl

-- An error behind the three bytes that could be read.
portable_broken :
    sendfile_portable true true true (room 2 ∷ interrupted ∷ room 4 ∷ []) (pos 1) (pos 5) file []
    ≡ (refused, 8 ∷ 7 ∷ 6 ∷ [])
unfolding program
portable_broken = refl

sendfile_portable-sendfile_example :
    (sendfile_portable true true false cut (pos 1) (pos 2) file []
      ≡ sendfile true (room 1 ∷ again ∷ room 1 ∷ []) (pos 1) (pos 2) file [])
    × (sendfile true (room 1 ∷ again ∷ room 1 ∷ []) (pos 1) (pos 2) file []
        ≡ (total (min 2 (length (drop 1 file))), [] ++ take 2 (drop 1 file)))
sendfile_portable-sendfile_example =
    sendfile_portable-sendfile cut (room 1 ∷ again ∷ room 1 ∷ []) 1 2 file []
      (omega arith, (tt, (omega arith, tt))) (omega arith) (omega arith, (tt, (omega arith, tt)))
      (omega arith)
