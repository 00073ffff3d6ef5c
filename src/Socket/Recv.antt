-- ===== src/Socket/Recv.antt =====
-- What `socket_recv_all` and `socket_recv_all_deadline` take from the wire.
use stdc.Prelude.Blocks.{copy_into, copy_into-append, copy_into_twice}
use stdc.Prelude.{
  ℕ, zero, suc, ◌+◌, ◌-◌, ◌≤◌, ◌≡◌, refl, sym, ap, ap₂, ◌∙◌, ◌⊎◌, inl, inr, true, false, List, [],
  ◌∷◌, ◌++◌, map, arith, length, take, drop, take-add, take-length, take-all, drop-all, drop-drop,
  length-drop, length-take, subst, Bool-cases, ◌==◌, if◌then◌else◌, min, drop-append_le,
  take-append_le,
}
use stdc.Socket.Send.{chunk_of-le, send_all-Sends}
use stdc.Socket.Transfer.{
  Answer, room, interrupted, again, failed, Ending, returned, waiting, chunk_of, send_all, recv_all,
  Round, in_time, recv_all_deadline,
}

-- A prefix of what the peer sent goes to the buffer and leaves the wire; the call returns true if it
-- is as long as was asked for, and only then.
pub record Receives (more p : ℕ) (wire buffer : List ℕ) (r : Ending × (List ℕ × List ℕ))
    : Type 0 where
  pub count : ℕ
  pub within : count ≤ more
  pub there : count ≤ length wire
  pub taken : r.1.0 ≡ drop count wire
  pub stored : r.1.1 ≡ copy_into buffer p (take count wire)
  pub complete : r.0 ≡ returned true → count ≡ more
  pub reported : count ≡ more → r.0 ≡ returned true

Receives-none :
    (more p : ℕ) (wire buffer : List ℕ) (e : Ending)
    → ¬ (e ≡ returned true)
    → Receives (suc more) p wire buffer (e, (wire, buffer))
unfolding copy_into
Receives-none more p wire buffer e h = record {
  count = 0;
  within = omega arith;
  there = omega arith;
  taken = refl;
  stored = refl;
  complete = λ t. absurd (h t);
  reported = λ t. absurd (omega arith);
}

Receives-more :
    (more p n : ℕ) (wire buffer : List ℕ) (r : Ending × (List ℕ × List ℕ))
    → n ≤ more
    → n ≤ length wire
    → Receives (more - n) (p + n) (drop n wire) (copy_into buffer p (take n wire)) r
    → Receives more p wire buffer r
Receives-more more p n wire buffer r h k s =
    let len : n ≡ length (take n wire) = omega (arith, length-take n wire) in
    record {
      count = n + s.count;
      within = omega (arith, s.within);
      there = omega (arith, s.there, length-drop n wire);
      taken = s.taken ∙ drop-drop n s.count wire;
      stored =
          s.stored
          ∙ ap
              (λ t.
                copy_into (copy_into buffer p (take n wire)) (p + t) (take s.count (drop n wire)))
              len
          ∙ copy_into_twice (take n wire) (take s.count (drop n wire)) buffer p
          ∙ ap (copy_into buffer p) (sym (take-add n s.count wire));
      complete = λ t. omega (arith, s.complete t);
      reported = λ t. s.reported (omega arith);
    }

-- However the system cuts and interrupts its calls, `socket_recv_all` moves a prefix of what the
-- peer has sent into the buffer, in order, at most as many bytes as were asked for, and returns
-- true exactly when it has all of them.
pub recv_all-Receives :
    (answers : List Answer) (more p : ℕ) (wire buffer : List ℕ)
    → Receives more p wire buffer (recv_all answers more p wire buffer)
unfolding recv_all
recv_all-Receives answers zero p wire buffer = record {
  count = 0;
  within = omega arith;
  there = omega arith;
  taken = refl;
  stored = unfold copy_into in refl;
  complete = λ t. refl;
  reported = λ t. refl;
}
recv_all-Receives [] (suc more) p wire buffer = Receives-none more p wire buffer waiting (λ t. cc t)
recv_all-Receives (interrupted ∷ answers) (suc more) p wire buffer =
    recv_all-Receives answers (suc more) p wire buffer
recv_all-Receives (again ∷ answers) (suc more) p wire buffer =
    Receives-none more p wire buffer (returned false) (λ t. ground arith)
recv_all-Receives (failed ∷ answers) (suc more) p wire buffer =
    Receives-none more p wire buffer (returned false) (λ t. ground arith)
recv_all-Receives (room k ∷ answers) (suc more) p wire buffer =
    let bytes = take (min k (chunk_of (suc more))) wire in
    let n = length bytes in
    let len = length-take (min k (chunk_of (suc more))) wire in
    let le = chunk_of-le (suc more) in
    elim (Bool-cases (n == 0)) [
      | inl none ↦ rw none (Receives-none more p wire buffer (returned false) (λ t. ground arith))
      | inr some ↦ rw some (
          Receives-more (suc more) p n wire buffer _ (omega arith) (omega arith) (
            subst
              (λ t.
                Receives (suc more - n) (p + n) (drop n wire) (copy_into buffer p t) (
                  recv_all answers (suc more - n) (p + n) (drop n wire) (copy_into buffer p bytes)))
              (sym (take-length (min k (chunk_of (suc more))) wire))
              (recv_all-Receives answers (suc more - n) (p + n) (drop n wire)
                (copy_into buffer p bytes))))
    ]

-- What is sent whole and received whole arrives: it stands in the receiver's buffer, and the bytes
-- behind it stay on the wire.
pub recv_all-send_all :
    (sends receives : List Answer) (p wire' later buffer : List ℕ)
    → (send_all sends p []) ≡ (returned true, wire')
    → length p ≤ length buffer
    → (recv_all receives (length p) 0 (wire' ++ later) buffer).0 ≡ returned true
    → (recv_all receives (length p) 0 (wire' ++ later) buffer).1
      ≡ (later, p ++ drop (length p) buffer)
recv_all-send_all sends receives p wire' later buffer sent fits got =
    let s = send_all-Sends sends p [] in
    let r = recv_all-Receives receives (length p) 0 (wire' ++ later) buffer in
    let whole : wire' ≡ p =
      sym (ap (λ t. t.1) sent)
      ∙ s.sent
      ∙ take-all s.count p (omega (arith, s.complete (ap (λ t. t.0) sent))) in
    let all : r.count ≡ length p = r.complete got in
    let t : take r.count (wire' ++ later) ≡ p =
      ap₂ (λ k w. take k (w ++ later)) all whole
      ∙ take-append_le (length p) p later (omega arith)
      ∙ take-all (length p) p (omega arith) in
    let d : drop r.count (wire' ++ later) ≡ later =
      ap₂ (λ k w. drop k (w ++ later)) all whole
      ∙ drop-append_le (length p) p later (omega arith)
      ∙ ap (λ t. t ++ later) (drop-all (length p) p (omega arith)) in
    ap₂ (λ a b. (a, b)) (r.taken ∙ d)
      (r.stored ∙ ap (copy_into buffer 0) t ∙ copy_into-append p [] buffer 0 refl fits)

Answer-cases :
    (a : Answer) → ((k : ℕ) × (a ≡ room k)) ⊎ ((a ≡ interrupted) ⊎ ((a ≡ again) ⊎ (a ≡ failed)))
Answer-cases (room k) = inl (k, refl)
Answer-cases interrupted = inr (inl refl)
Answer-cases again = inr (inr (inl refl))
Answer-cases failed = inr (inr (inr refl))

-- A round in which the deadline has passed, or the timeout cannot be set, is one that fails.
unfoldable pub answer_of : ℕ → Round → Answer
answer_of deadline r = if in_time deadline r then r.answer else failed

-- `socket_recv_all_deadline` is `socket_recv_all` where every call fails that would begin after the
-- deadline or for which the timeout cannot be set: it moves no byte after the deadline, and retries an
-- interrupted call only before it.
pub recv_all_deadline-recv_all :
    (deadline : ℕ) (rounds : List Round) (more p : ℕ) (wire buffer : List ℕ)
    → recv_all_deadline deadline rounds more p wire buffer
      ≡ recv_all (map (answer_of deadline) rounds) more p wire buffer
unfolding recv_all_deadline recv_all
recv_all_deadline-recv_all deadline rounds zero p wire buffer = refl
recv_all_deadline-recv_all deadline [] (suc more) p wire buffer = refl
recv_all_deadline-recv_all deadline (r ∷ rounds) (suc more) p wire buffer =
    elim (Bool-cases (in_time deadline r)) [
      | inr late ↦
          let f : answer_of deadline r ≡ failed = unfold answer_of in simp late in simp (late, f)
      | inl early ↦
          let f : answer_of deadline r ≡ r.answer = unfold answer_of in simp early in
          elim (Answer-cases r.answer) [
            | inl (k, e) ↦
                let bytes = take (min k (chunk_of (suc more))) wire in
                let n = length bytes in
                simp (early, f, e)
                  (ap (λ t. if n == 0 then (returned false, (wire, buffer)) else t)
                    (recv_all_deadline-recv_all deadline rounds (suc more - n) (p + n) (drop n wire)
                      (copy_into buffer p bytes)))
            | inr (inl e) ↦
                simp (early, f, e)
                  (recv_all_deadline-recv_all deadline rounds (suc more) p wire buffer)
            | inr (inr (inl e)) ↦ simp (early, f, e)
            | inr (inr (inr e)) ↦ simp (early, f, e)
          ]
    ]
