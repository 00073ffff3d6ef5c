-- ===== src/Socket/Send.antt =====
-- What `socket_send_all` puts on the wire.
use mathlib.Core.List.{append-nil, append_assoc}
use stdc.Prelude.{
  ℕ, ◌+◌, ◌≤◌, ◌<◌, ◌≡◌, refl, sym, ap, ◌∙◌, inl, inr, true, false, List, [], ◌∷◌, ◌++◌, arith,
  length, take, drop, take-add, take-append-drop, length-drop, All, Bool-cases, ◌==◌, min,
}
use stdc.Socket.Transfer.{
  Answer, room, interrupted, again, failed, Ending, returned, waiting, chunk_of, send_all,
}

pub chunk_of-le : (n : ℕ) → chunk_of n ≤ n
unfolding chunk_of
chunk_of-le n = ground arith

-- The peer gets a prefix of the buffer behind what it had; the call returns true if the prefix is
-- the whole buffer, and only then.
pub record Sends (p wire : List ℕ) (r : Ending × List ℕ) : Type 0 where
  pub count : ℕ
  pub within : count ≤ length p
  pub sent : r.1 ≡ wire ++ take count p
  pub complete : r.0 ≡ returned true → count ≡ length p
  pub reported : count ≡ length p → r.0 ≡ returned true

Sends-none :
    (x : ℕ) (p wire : List ℕ) (e : Ending) → ¬ (e ≡ returned true) → Sends (x ∷ p) wire (e, wire)
Sends-none x p wire e h = record {
  count = 0;
  within = omega arith;
  sent = sym (append-nil wire);
  complete = λ t. absurd (h t);
  reported = λ t. absurd (omega arith);
}

Sends-more :
    (n : ℕ) (p wire : List ℕ) (r : Ending × List ℕ)
    → n ≤ length p
    → Sends (drop n p) (wire ++ take n p) r
    → Sends p wire r
Sends-more n p wire r h s = record {
  count = n + s.count;
  within = omega (arith, s.within, length-drop n p);
  sent =
      s.sent
      ∙ append_assoc wire (take n p) (take s.count (drop n p))
      ∙ ap (λ t. wire ++ t) (sym (take-add n s.count p));
  complete = λ t. omega (arith, s.complete t, length-drop n p);
  reported = λ t. s.reported (omega (arith, length-drop n p));
}

-- However the system cuts and interrupts its calls, `socket_send_all` puts a prefix of the buffer
-- on the wire, in order, and returns true exactly when this is the whole buffer.
pub send_all-Sends :
    (answers : List Answer) (p wire : List ℕ) → Sends p wire (send_all answers p wire)
unfolding send_all
send_all-Sends answers [] wire = record {
  count = 0;
  within = omega arith;
  sent = sym (append-nil wire);
  complete = λ t. refl;
  reported = λ t. refl;
}
send_all-Sends [] (x ∷ p) wire = Sends-none x p wire waiting (λ t. cc t)
send_all-Sends (interrupted ∷ answers) (x ∷ p) wire = send_all-Sends answers (x ∷ p) wire
send_all-Sends (again ∷ answers) (x ∷ p) wire =
    Sends-none x p wire (returned false) (λ t. ground arith)
send_all-Sends (failed ∷ answers) (x ∷ p) wire =
    Sends-none x p wire (returned false) (λ t. ground arith)
send_all-Sends (room k ∷ answers) (x ∷ p) wire =
    let n = min k (chunk_of (length (x ∷ p))) in
    elim (Bool-cases (n == 0)) [
      | inl none ↦ rw none (Sends-none x p wire (returned false) (λ t. ground arith))
      | inr some ↦ rw some (
          Sends-more n (x ∷ p) wire (send_all answers (drop n (x ∷ p)) (wire ++ take n (x ∷ p)))
            (omega (arith, chunk_of-le (length (x ∷ p))))
            (send_all-Sends answers (drop n (x ∷ p)) (wire ++ take n (x ∷ p))))
    ]

-- The answers that do not end the loop, and how many of them move bytes.
abbrev pub Serves : Answer → Type 0
Serves (room n) = 0 < n
Serves interrupted = Unit
Serves again = ⊥
Serves failed = ⊥

abbrev pub rooms : List Answer → ℕ
rooms [] = 0
rooms (room n ∷ answers) = rooms answers + 1
rooms (interrupted ∷ answers) = rooms answers
rooms (again ∷ answers) = rooms answers
rooms (failed ∷ answers) = rooms answers

pub chunk_of_positive : (n : ℕ) → 0 < n → 0 < chunk_of n
unfolding chunk_of
chunk_of_positive n h = ground arith

-- `socket_send_all` returns true and has sent the whole buffer if no call fails, each call that is
-- not interrupted moves at least one byte, and there are as many of these as the buffer has bytes.
pub send_all_complete :
    (answers : List Answer) (p wire : List ℕ)
    → All Serves answers
    → length p ≤ rooms answers
    → send_all answers p wire ≡ (returned true, wire ++ p)
unfolding send_all
send_all_complete answers [] wire h enough = ap (λ t. (returned true, t)) (sym (append-nil wire))
send_all_complete [] (x ∷ p) wire h enough = absurd (omega arith)
send_all_complete (interrupted ∷ answers) (x ∷ p) wire h enough =
    send_all_complete answers (x ∷ p) wire h.1 enough
send_all_complete (again ∷ answers) (x ∷ p) wire h enough = absurd h.0
send_all_complete (failed ∷ answers) (x ∷ p) wire h enough = absurd h.0
send_all_complete (room k ∷ answers) (x ∷ p) wire h enough =
    let n = min k (chunk_of (length (x ∷ p))) in
    let positive : 0 < n = omega (arith, h.0, chunk_of_positive (length (x ∷ p)) (omega arith)) in
    let some : (n == 0) ≡ false = ground arith in
    rw some (
      send_all_complete answers (drop n (x ∷ p)) (wire ++ take n (x ∷ p)) h.1
        (omega (arith, length-drop n (x ∷ p)))
      ∙ ap (λ t. (returned true, t))
          (append_assoc wire (take n (x ∷ p)) (drop n (x ∷ p))
            ∙ ap (λ t. wire ++ t) (take-append-drop n (x ∷ p))))
