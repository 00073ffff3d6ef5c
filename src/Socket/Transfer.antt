-- ===== src/Socket/Transfer.antt =====
-- The loops of socket.c that move a whole buffer. The answers of the system's calls are a list: a
-- loop asks for one in each round, and waits where there is none left.
use stdc.Prelude.Blocks.{copy_into}
use stdc.Prelude.{
  ℕ, zero, suc, ◌+◌, ◌-◌, ◌*◌, ◌/◌, ◌%◌, min, Bool, true, false, List, [], ◌∷◌, ◌++◌, ltb, leb,
  ◌==◌, if◌then◌else◌, length, take, drop,
}

-- `room n` is a call that can move `n` bytes, and moves no more than it is asked to. The others
-- return -1 with `EINTR`, `EAGAIN`, or another error.
pub data Answer : Type 0 where
  room : ℕ → Answer
  interrupted again failed : Answer

pub data Ending : Type 0 where
  returned : Bool → Ending
  waiting : Ending

-- The length of one call, which is an `int`.
unfoldable pub chunk_of : ℕ → ℕ
chunk_of length = if ltb 0x7fffffff length then 0x7fffffff else length

-- `socket_send_all`: the bytes from `p` on, and those that the peer can read so far.
unfoldable pub send_all : List Answer → List ℕ → List ℕ → Ending × List ℕ
send_all answers [] wire = (returned true, wire)
send_all [] (x ∷ p) wire = (waiting, wire)
send_all (interrupted ∷ answers) (x ∷ p) wire = send_all answers (x ∷ p) wire
send_all (again ∷ answers) (x ∷ p) wire = (returned false, wire)
send_all (failed ∷ answers) (x ∷ p) wire = (returned false, wire)
send_all (room k ∷ answers) (x ∷ p) wire =
    let n = min k (chunk_of (length (x ∷ p))) in
    let rest = send_all answers (drop n (x ∷ p)) (wire ++ take n (x ∷ p)) in
    if n == 0 then (returned false, wire) else rest

-- `socket_recv_all`: the bytes that are still to come into the buffer from `p` on, and those that
-- the peer has sent. Where it has sent no more, it has closed the connection, and `recv` returns 0.
unfoldable pub recv_all : List Answer → ℕ → ℕ → List ℕ → List ℕ → Ending × (List ℕ × List ℕ)
recv_all answers zero p wire buffer = (returned true, (wire, buffer))
recv_all [] (suc more) p wire buffer = (waiting, (wire, buffer))
recv_all (interrupted ∷ answers) (suc more) p wire buffer =
    recv_all answers (suc more) p wire buffer
recv_all (again ∷ answers) (suc more) p wire buffer = (returned false, (wire, buffer))
recv_all (failed ∷ answers) (suc more) p wire buffer = (returned false, (wire, buffer))
recv_all (room k ∷ answers) (suc more) p wire buffer =
    let bytes = take (min k (chunk_of (suc more))) wire in
    let n = length bytes in
    let rest = recv_all answers (suc more - n) (p + n) (drop n wire) (copy_into buffer p bytes) in
    if n == 0 then (returned false, (wire, buffer)) else rest

-- What one round of `socket_recv_all_deadline` meets: the clock, whether the timeout can be set, and
-- the answer of `recv`.
pub record Round : Type 0 where
  pub now : ℕ
  pub accepted : Bool
  pub answer : Answer

-- A time is in microseconds.
unfoldable pub timeout_seconds : ℕ → ℕ × ℕ
timeout_seconds second =
    let s = second / 1000000 in
    let ms = (second % 1000000 + 500) / 1000 in if leb 1000 ms then (s + 1, ms - 1000) else (s, ms)

-- `socket_setopt_timeout` at a time that is not negative, where `INT_MAX / 1000` is 2147483; what
-- `setsockopt` is given is the second component.
unfoldable pub setopt_timeout : Bool → ℕ → Bool × (ℕ × ℕ)
setopt_timeout accepted second =
    if ltb (2147483 * 1000000) second
    then (false, (0, 0))
    else (let (s, ms) = timeout_seconds second in (accepted, (s, ms * 1000)))

-- The tests of one round before `recv`.
unfoldable pub in_time : ℕ → Round → Bool
in_time deadline r =
    if leb deadline r.now then false else (setopt_timeout r.accepted (deadline - r.now)).0

unfoldable pub recv_all_deadline :
    ℕ → List Round → ℕ → ℕ → List ℕ → List ℕ → Ending × (List ℕ × List ℕ)
recv_all_deadline deadline rounds zero p wire buffer = (returned true, (wire, buffer))
recv_all_deadline deadline [] (suc more) p wire buffer = (waiting, (wire, buffer))
recv_all_deadline deadline (r ∷ rounds) (suc more) p wire buffer =
    let retried = recv_all_deadline deadline rounds (suc more) p wire buffer in
    let received = λ (k : ℕ).
      (let bytes = take (min k (chunk_of (suc more))) wire in
        let n = length bytes in
        let rest =
          recv_all_deadline deadline rounds (suc more - n) (p + n) (drop n wire)
            (copy_into buffer p bytes) in
        if n == 0 then (returned false, (wire, buffer)) else rest) in
    if in_time deadline r
    then elim r.answer [
      | room k ↦ received k
      | interrupted ↦ retried
      | again ↦ (returned false, (wire, buffer))
      | failed ↦ (returned false, (wire, buffer))
    ]
    else (returned false, (wire, buffer))
