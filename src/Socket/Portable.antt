-- ===== src/Socket/Portable.antt =====
-- `socket_sendfile`, as it is on systems without a call for it: a buffer between file and socket.
use mathlib.Core.List.{append-nil, append_assoc}
use stdc.Prelude.Int.{ℤ, pos, negsuc}
use stdc.Prelude.{
  ℕ, zero, suc, ◌+◌, ◌-◌, ◌≤◌, ◌<◌, ◌≡◌, sym, ap, ap₂, ◌∙◌, inl, inr, Bool, true, false, List, [],
  ◌∷◌, ◌++◌, arith, length, take, drop, take-add, take-length, length-drop, length-take,
  take-append-drop, All, Bool-cases, ◌==◌, ltb, if◌then◌else◌, min,
}
use stdc.Socket.Send.{rooms, Serves, chunk_of_positive}
use stdc.Socket.Sendfile.{
  Transfer, total, refused, pending, sendfile, sendfile-Sends, Continues, sendfile_complete,
}
use stdc.Socket.Transfer.{Answer, room, interrupted, again, failed, chunk_of}

-- How the buffer's loop goes on: with the number of bytes sent and the answers that are left, or out
-- of the function.
pub data Pushed : Type 0 where
  onward : ℕ → List Answer → Pushed
  stops : Transfer → Pushed

-- The loop that sends what is left of the buffer.
unfoldable pub push_loop : List Answer → List ℕ → ℕ → List ℕ → Pushed × List ℕ
push_loop answers [] sent wire = (onward sent answers, wire)
push_loop [] (x ∷ p) sent wire = (stops pending, wire)
push_loop (interrupted ∷ answers) (x ∷ p) sent wire = push_loop answers (x ∷ p) sent wire
push_loop (again ∷ answers) (x ∷ p) sent wire = (stops refused, wire)
push_loop (failed ∷ answers) (x ∷ p) sent wire = (stops refused, wire)
push_loop (room k ∷ answers) (x ∷ p) sent wire =
    let n = min k (chunk_of (length (x ∷ p))) in
    let rest = push_loop answers (drop n (x ∷ p)) (sent + n) (wire ++ take n (x ∷ p)) in
    if n == 0 then (stops refused, wire) else rest

-- The number of bytes that one call of `fread` asks for.
unfoldable pub want_of : ℕ → ℕ
want_of left = if ltb 65536 left then 65536 else left

-- The loop over the file. `unread` is what can be read of it, and `broken` whether an error is behind
-- that, or the end of the file.
unfoldable pub copy_loop : ℕ → Bool → List Answer → ℕ → ℕ → List ℕ → List ℕ → Transfer × List ℕ
copy_loop zero broken answers left sent unread wire = (pending, wire)
copy_loop (suc fuel) broken answers zero sent unread wire = (total sent, wire)
copy_loop (suc fuel) broken answers (suc left) sent unread wire =
    let buffer = take (want_of (suc left)) unread in
    let n = length buffer in
    if n == 0
    then (if broken then (refused, wire) else (total sent, wire))
    else let (pushed, wire') = push_loop answers buffer sent wire in
      elim pushed [
        | stops t ↦ (t, wire')
        | onward sent' answers' ↦
            copy_loop fuel broken answers' (suc left - n) sent' (drop n unread) wire'
      ]

-- `valid` is whether the socket and the file are there, and `sought` whether `socket_fseek` succeeds.
unfoldable pub sendfile_portable :
    Bool → Bool → Bool → List Answer → ℤ → ℤ → List ℕ → List ℕ → Transfer × List ℕ
sendfile_portable false sought broken answers offset size file wire = (refused, wire)
sendfile_portable true sought broken answers (negsuc n) size file wire = (refused, wire)
sendfile_portable true sought broken answers (pos offset) (negsuc n) file wire = (refused, wire)
sendfile_portable true sought broken answers (pos offset) (pos size) file wire =
    if sought
    then copy_loop (suc size) broken answers size 0 (drop offset file) wire
    else (refused, wire)

chunk_of-le : (n : ℕ) → chunk_of n ≤ n
unfolding chunk_of
chunk_of-le n = ground arith

-- The buffer's loop sends the whole buffer if every call serves it.
push_loop_complete :
    (answers : List Answer) (p : List ℕ) (sent : ℕ) (wire : List ℕ)
    → All Serves answers
    → length p ≤ rooms answers
    → (rest : List Answer) × (push_loop answers p sent wire
        ≡ (onward (sent + length p) rest, wire ++ p))
      × All Serves rest
      × (rooms answers ≤ rooms rest + length p)
unfolding push_loop
push_loop_complete answers [] sent wire h enough = (
  answers,
  ap₂ (λ s w. (onward s answers, w)) (omega arith) (sym (append-nil wire)),
  h,
  omega arith,
)
push_loop_complete [] (x ∷ p) sent wire h enough = absurd (omega arith)
push_loop_complete (interrupted ∷ answers) (x ∷ p) sent wire h enough =
    push_loop_complete answers (x ∷ p) sent wire h.1 enough
push_loop_complete (again ∷ answers) (x ∷ p) sent wire h enough = absurd h.0
push_loop_complete (failed ∷ answers) (x ∷ p) sent wire h enough = absurd h.0
push_loop_complete (room k ∷ answers) (x ∷ p) sent wire h enough =
    let m = chunk_of (length (x ∷ p)) in
    let n = min k m in
    let positive = chunk_of_positive (length (x ∷ p)) (omega arith) in
    let below : m ≤ length (x ∷ p) = chunk_of-le (length (x ∷ p)) in
    let some : (n == 0) ≡ false = ground (arith, h.0) in
    let cut = length-drop n (x ∷ p) in
    let (rest, ends, serves, left) =
      push_loop_complete answers (drop n (x ∷ p)) (sent + n) (wire ++ take n (x ∷ p)) h.1
        (omega (arith, h.0)) in
    (
      rest,
      rw some (
          ends
          ∙ ap₂ (λ s w. (onward s rest, w)) (omega arith)
              (append_assoc wire (take n (x ∷ p)) (drop n (x ∷ p))
                ∙ ap (λ t. wire ++ t) (take-append-drop n (x ∷ p)))),
      serves,
      omega (arith, h.0),
    )

take-min : (k : ℕ) (xs : List ℕ) → take (min k (length xs)) xs ≡ take k xs
take-min zero xs = let e : min 0 (length xs) ≡ 0 = omega arith in ap (λ t. take t xs) e
take-min (suc k) [] = let e : min (suc k) 0 ≡ 0 = omega arith in ap (λ t. take t []) e
take-min (suc k) (x ∷ xs) =
    let e : min (suc k) (suc (length xs)) ≡ suc (min k (length xs)) = omega arith in
    ap (λ t. take t (x ∷ xs)) e ∙ ap (λ t. x ∷ t) (take-min k xs)

want_of-bound : (left : ℕ) → 0 < left → (want_of left ≤ left) × (0 < want_of left)
unfolding want_of
want_of-bound left h = (ground arith, ground arith)

nothing_read : (k : ℕ) (unread wire : List ℕ) → length unread ≡ 0 → wire ≡ wire ++ take k unread
nothing_read zero unread wire h = sym (append-nil wire)
nothing_read (suc k) [] wire h = sym (append-nil wire)
nothing_read (suc k) (x ∷ unread) wire h = absurd (omega (arith, h))

read_on :
    (left want : ℕ) (unread wire : List ℕ)
    → want ≤ left
    → (wire ++ take want unread)
        ++ take (left - length (take want unread)) (drop (length (take want unread)) unread)
      ≡ wire ++ take left unread
read_on left want unread wire h =
    let n = length (take want unread) in
    let e : n + (left - n) ≡ left = omega (arith, length-take want unread) in
    append_assoc wire (take want unread) (take (left - n) (drop n unread))
    ∙ ap (λ t. wire ++ t)
        (ap (λ t. t ++ take (left - n) (drop n unread)) (sym (take-length want unread))
          ∙ sym (take-add n (left - n) unread)
          ∙ ap (λ t. take t unread) e)

copy_loop_complete :
    (fuel : ℕ) (answers : List Answer) (left sent : ℕ) (unread wire : List ℕ)
    → left < fuel
    → All Serves answers
    → left ≤ rooms answers
    → copy_loop fuel false answers left sent unread wire
      ≡ (total (sent + min left (length unread)), wire ++ take left unread)
unfolding copy_loop
copy_loop_complete zero answers left sent unread wire l h enough = absurd (omega arith)
copy_loop_complete (suc fuel) answers zero sent unread wire l h enough =
    let count : sent ≡ sent + min 0 (length unread) = omega arith in
    ap₂ (λ s w. (total s, w)) count (sym (append-nil wire))
copy_loop_complete (suc fuel) answers (suc left) sent unread wire l h enough =
    let buffer = take (want_of (suc left)) unread in
    let n = length buffer in
    let want = want_of (suc left) in
    let bound = want_of-bound (suc left) (omega arith) in
    let len = length-take want unread in
    elim (Bool-cases (n == 0)) [
      | inl none ↦
          let count : sent ≡ sent + min (suc left) (length unread) = ground (arith, bound.1) in
          let over : length unread ≡ 0 = ground (arith, bound.1) in
          rw none (ap₂ (λ s w. (total s, w)) count (nothing_read (suc left) unread wire over))
      | inr some ↦
          let positive : 0 < n = ground arith in
          let (rest, pushed, serves, more) =
            push_loop_complete answers buffer sent wire h (omega (arith, bound.0)) in
          let count : sent + n + min (suc left - n) (length (drop n unread))
              ≡ sent + min (suc left) (length unread) =
            omega (arith, bound.0, length-drop n unread) in
          rw (some, pushed)
            (ap (λ r. copy_loop fuel false rest (suc left - n) (sent + n) (drop n unread) r.1)
                pushed
              ∙ copy_loop_complete fuel rest (suc left - n) (sent + n) (drop n unread)
                  (wire ++ buffer) (omega arith) serves (omega (arith, bound.0))
              ∙ ap₂ (λ s w. (total s, w)) count (read_on (suc left) want unread wire bound.0))
    ]

-- If every call on the one system serves the buffer's loop, and every call on Linux lets its loop go
-- on, with as many calls on each that can move bytes as bytes were asked for, both forms of
-- `socket_sendfile` return and do the same: the number is the size that was asked for or what the
-- file has from the offset on, if that is less, and so many bytes from there are on the wire.
pub sendfile_portable-sendfile :
    (answers native : List Answer) (offset size : ℕ) (file wire : List ℕ)
    → All Serves answers
    → size ≤ rooms answers
    → All Continues native
    → size ≤ rooms native
    → (sendfile_portable true true false answers (pos offset) (pos size) file wire
        ≡ sendfile true native (pos offset) (pos size) file wire)
      × (sendfile true native (pos offset) (pos size) file wire
          ≡ (total (min size (length (drop offset file))), wire ++ take size (drop offset file)))
unfolding sendfile_portable
sendfile_portable-sendfile answers native offset size file wire serves enough steady ready =
    let plain : 0 + min size (length (drop offset file)) ≡ min size (length (drop offset file)) =
      omega arith in
    let copied =
      copy_loop_complete (suc size) answers size 0 (drop offset file) wire (omega arith) serves
        enough
      ∙ ap (λ t. (total t, wire ++ take size (drop offset file))) plain in
    let sent = sendfile-Sends native offset size file wire in
    let number = sendfile_complete native offset size file wire steady ready in
    let count : sent.count ≡ min size (length (drop offset file)) =
      omega (arith, sent.reported _ number) in
    let direct =
      ap₂ (λ t w. (t, w)) number
        (sent.moved
          ∙ ap (λ t. wire ++ t)
              (ap (λ t. take t (drop offset file)) count ∙ take-min size (drop offset file))) in
    (copied ∙ sym direct, direct)
