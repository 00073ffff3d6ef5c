-- ===== src/Socket/Sendfile.antt =====
-- `socket_sendfile`, as it is on Linux.
use mathlib.Core.List.{append-nil, append_assoc}
use stdc.Prelude.Int.{ℤ, pos, negsuc}
use stdc.Prelude.{
  ℕ, zero, suc, ◌+◌, ◌-◌, ◌≤◌, ◌<◌, ◌≡◌, sym, ap, ap₂, ◌∙◌, inl, inr, Bool, true, false, List, [],
  ◌∷◌, ◌++◌, arith, length, take, drop, take-add, take-length, drop-drop, length-drop, length-take,
  All, Bool-cases, ◌==◌, if◌then◌else◌, min,
}
use stdc.Socket.Send.{rooms}
use stdc.Socket.Transfer.{Answer, room, interrupted, again, failed}

pub data Transfer : Type 0 where
  total : ℕ → Transfer
  refused pending : Transfer

-- The loop with `size - sent` bytes left to send from the offset on.
unfoldable pub sendfile_loop : List Answer → ℕ → ℕ → ℕ → List ℕ → List ℕ → Transfer × List ℕ
sendfile_loop answers zero sent offset file wire = (total sent, wire)
sendfile_loop [] (suc left) sent offset file wire = (pending, wire)
sendfile_loop (interrupted ∷ answers) (suc left) sent offset file wire =
    sendfile_loop answers (suc left) sent offset file wire
sendfile_loop (again ∷ answers) (suc left) sent offset file wire =
    sendfile_loop answers (suc left) sent offset file wire
sendfile_loop (failed ∷ answers) (suc left) sent offset file wire = (refused, wire)
sendfile_loop (room k ∷ answers) (suc left) sent offset file wire =
    let bytes = take (min k (suc left)) (drop offset file) in
    let n = length bytes in
    let rest = sendfile_loop answers (suc left - n) (sent + n) (offset + n) file (wire ++ bytes) in
    if n == 0 then (total sent, wire) else rest

-- `valid` is whether the socket and the file are there.
unfoldable pub sendfile : Bool → List Answer → ℤ → ℤ → List ℕ → List ℕ → Transfer × List ℕ
sendfile false answers offset size file wire = (refused, wire)
sendfile true answers (negsuc n) size file wire = (refused, wire)
sendfile true answers (pos offset) (negsuc n) file wire = (refused, wire)
sendfile true answers (pos offset) (pos size) file wire =
    sendfile_loop answers size 0 offset file wire

pub record SendsFile (left sent offset : ℕ) (file wire : List ℕ) (r : Transfer × List ℕ)
    : Type 0 where
  pub count : ℕ
  pub within : count ≤ left
  pub there : count ≤ length (drop offset file)
  pub moved : r.1 ≡ wire ++ take count (drop offset file)
  pub reported : (k : ℕ) → r.0 ≡ total k → k ≡ sent + count

sends_none :
    (left sent offset : ℕ) (file wire : List ℕ) (t : Transfer)
    → ((k : ℕ) → t ≡ total k → k ≡ sent)
    → SendsFile left sent offset file wire (t, wire)
sends_none left sent offset file wire t h = record {
  count = 0;
  within = omega arith;
  there = omega arith;
  moved = sym (append-nil wire);
  reported = λ k e. omega (arith, h k e);
}

sends_more :
    (left sent offset n : ℕ) (file wire bytes : List ℕ) (r : Transfer × List ℕ)
    → n ≤ left
    → n ≤ length (drop offset file)
    → bytes ≡ take n (drop offset file)
    → SendsFile (left - n) (sent + n) (offset + n) file (wire ++ bytes) r
    → SendsFile left sent offset file wire r
sends_more left sent offset n file wire bytes r h k e s = record {
  count = n + s.count;
  within = omega (arith, s.within);
  there = omega (arith, s.there, length-drop (offset + n) file, length-drop offset file);
  moved =
      s.moved
      ∙ append_assoc wire bytes (take s.count (drop (offset + n) file))
      ∙ ap₂ (λ b d. wire ++ (b ++ take s.count d)) e (sym (drop-drop offset n file))
      ∙ ap (λ t. wire ++ t) (sym (take-add n s.count (drop offset file)));
  reported = λ k t. omega (arith, s.reported k t);
}

sendfile_loop-Sends :
    (answers : List Answer) (left sent offset : ℕ) (file wire : List ℕ)
    → SendsFile left sent offset file wire (sendfile_loop answers left sent offset file wire)
unfolding sendfile_loop
sendfile_loop-Sends answers zero sent offset file wire =
    sends_none 0 sent offset file wire (total sent) (λ k e. ground arith)
sendfile_loop-Sends [] (suc left) sent offset file wire =
    sends_none (suc left) sent offset file wire pending (λ k e. cc e)
sendfile_loop-Sends (interrupted ∷ answers) (suc left) sent offset file wire =
    sendfile_loop-Sends answers (suc left) sent offset file wire
sendfile_loop-Sends (again ∷ answers) (suc left) sent offset file wire =
    sendfile_loop-Sends answers (suc left) sent offset file wire
sendfile_loop-Sends (failed ∷ answers) (suc left) sent offset file wire =
    sends_none (suc left) sent offset file wire refused (λ k e. cc e)
sendfile_loop-Sends (room k ∷ answers) (suc left) sent offset file wire =
    let bytes = take (min k (suc left)) (drop offset file) in
    let n = length bytes in
    let len = length-take (min k (suc left)) (drop offset file) in
    elim (Bool-cases (n == 0)) [
      | inl none ↦
          rw none (sends_none (suc left) sent offset file wire (total sent) (λ k e. ground arith))
      | inr some ↦ rw some (
          sends_more (suc left) sent offset n file wire bytes _ (omega arith) (omega arith)
            (sym (take-length (min k (suc left)) (drop offset file)))
            (sendfile_loop-Sends answers (suc left - n) (sent + n) (offset + n) file
              (wire ++ bytes)))
    ]

-- However the system cuts and interrupts its calls, `socket_sendfile` puts a part of the file on the
-- wire that begins at the offset and has at most the size that was asked for, and the number that it
-- returns is the length of that part.
pub sendfile-Sends :
    (answers : List Answer) (offset size : ℕ) (file wire : List ℕ)
    → SendsFile size 0 offset file wire (sendfile true answers (pos offset) (pos size) file wire)
unfolding sendfile
sendfile-Sends answers offset size file wire = sendfile_loop-Sends answers size 0 offset file wire

-- An answer after which `socket_sendfile` goes on.
abbrev pub Continues : Answer → Type 0
Continues (room n) = 0 < n
Continues interrupted = Unit
Continues again = Unit
Continues failed = ⊥

sendfile_loop_complete :
    (answers : List Answer) (left sent offset : ℕ) (file wire : List ℕ)
    → All Continues answers
    → left ≤ rooms answers
    → (sendfile_loop answers left sent offset file wire).0
      ≡ total (sent + min left (length (drop offset file)))
unfolding sendfile_loop
sendfile_loop_complete answers zero sent offset file wire h enough = ap total (omega arith)
sendfile_loop_complete [] (suc left) sent offset file wire h enough = absurd (omega arith)
sendfile_loop_complete (interrupted ∷ answers) (suc left) sent offset file wire h enough =
    sendfile_loop_complete answers (suc left) sent offset file wire h.1 enough
sendfile_loop_complete (again ∷ answers) (suc left) sent offset file wire h enough =
    sendfile_loop_complete answers (suc left) sent offset file wire h.1 enough
sendfile_loop_complete (failed ∷ answers) (suc left) sent offset file wire h enough = absurd h.0
sendfile_loop_complete (room k ∷ answers) (suc left) sent offset file wire h enough =
    let bytes = take (min k (suc left)) (drop offset file) in
    let n = length bytes in
    let len = length-take (min k (suc left)) (drop offset file) in
    elim (Bool-cases (n == 0)) [
      | inl none ↦ let end : n ≡ 0 = ground arith in rw none (ap total (omega (arith, h.0)))
      | inr some ↦
          let positive : 0 < n = ground arith in
          rw some (
            sendfile_loop_complete answers (suc left - n) (sent + n) (offset + n) file
              (wire ++ bytes) h.1 (omega arith)
            ∙ ap total (omega (arith, length-drop offset file, length-drop (offset + n) file)))
    ]

-- `socket_sendfile` returns, and its number is the size that was asked for or what the file has from
-- the offset on, if that is less, when no call fails but with `EINTR` or `EAGAIN`, each other call can
-- move a byte, and there are as many of these as bytes were asked for.
pub sendfile_complete :
    (answers : List Answer) (offset size : ℕ) (file wire : List ℕ)
    → All Continues answers
    → size ≤ rooms answers
    → (sendfile true answers (pos offset) (pos size) file wire).0
      ≡ total (min size (length (drop offset file)))
unfolding sendfile
sendfile_complete answers offset size file wire h enough =
    sendfile_loop_complete answers size 0 offset file wire h enough ∙ ap total (omega arith)
