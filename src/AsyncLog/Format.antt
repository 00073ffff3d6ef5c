-- ===== src/AsyncLog/Format.antt =====
-- `__async_log_callback_common_format__`: a line in a buffer on the stack.
use mathlib.Core.List.{append_assoc}
use stdc.Prelude.Blocks.{copy_into, copy_into-append}
use stdc.Prelude.{
  ℕ, ◌+◌, ◌-◌, ◌≤◌, ◌<◌, ◌≡◌, refl, ap, ◌∙◌, inl, inr, true, false, List, [], ◌∷◌, ◌++◌, arith,
  Option, none, some, ltb, ◌==◌, if◌then◌else◌, Bool-cases, length, take, drop, set, take-all,
  length-append, length-drop, set-end, take-append_le,
}

-- `sizeof(buffer)`, which is `ASYNC_LOG_MAX_MESSAGE_LENGTH + 256`.
abbrev pub capacity : ℕ
capacity = 768

-- `snprintf(buffer + offset, remaining, ...)` of a text, inside the buffer; it writes nothing where no
-- byte remains.
unfoldable pub snprintf : List ℕ → ℕ → ℕ → List ℕ → List ℕ
snprintf buffer offset remaining text =
    if remaining == 0 then buffer else copy_into buffer offset (take (remaining - 1) text ++ 0 ∷ [])

-- From the second `snprintf` on, which writes the message behind `offset` bytes. The buffer ends at
-- 768: nothing stands for an access behind it.
unfoldable pub format_message : List ℕ → ℕ → List ℕ → Option (List ℕ)
format_message buffer offset message =
    if ltb capacity offset
    then none
    else (let written = snprintf buffer offset (capacity - offset) message in
        let end = offset + length message in
        if ltb (end + 1) capacity
        then some (take (end + 1) (set (set written end b'\n') (end + 1) 0))
        else if ltb capacity end
        then none
        else some (take end written))

-- What `fwrite` gets; `header` is the text in front of the message.
unfoldable pub common_format : List ℕ → List ℕ → List ℕ → Option (List ℕ)
common_format junk header message =
    format_message (snprintf junk 0 capacity header) (length header) message

snprintf-append :
    (p s text : List ℕ) (n remaining : ℕ)
    → length p ≡ n
    → length text < remaining
    → remaining ≡ length s
    → snprintf (p ++ s) n remaining text ≡ (p ++ text) ++ (0 ∷ drop (length text + 1) s)
unfolding snprintf
snprintf-append p s text n remaining e fits all =
    let len = length-append text (0 ∷ []) in
    let whole : take (remaining - 1) text ≡ text = take-all (remaining - 1) text (omega arith) in
    let some_left : (remaining == 0) ≡ false = ground arith in
    rw some_left (ap (λ t. copy_into (p ++ s) n (t ++ 0 ∷ [])) whole)
    ∙ copy_into-append (text ++ 0 ∷ []) p s n e (omega arith)
    ∙ ap (λ t. (p ++ (text ++ 0 ∷ [])) ++ drop t s) len
    ∙ simp append_assoc

-- A line break and a zero behind a prefix, of which the zero is not taken.
take-line :
    (p s : List ℕ) (n : ℕ)
    → length p ≡ n
    → 2 ≤ length s
    → take (n + 1) (set (set (p ++ s) n b'\n') (n + 1) 0) ≡ p ++ b'\n' ∷ []
take-line p s n e long =
    let p' = p ++ b'\n' ∷ [] in
    let len : length p' ≡ n + 1 = omega (arith, length-append p (b'\n' ∷ [])) in
    ap (λ t. take (n + 1) (set t (n + 1) 0)) (set-end p s n b'\n' e (omega arith))
    ∙ ap (take (n + 1)) (set-end p' (drop 1 s) (n + 1) 0 len (omega (arith, length-drop 1 s)))
    ∙ take-append_le (n + 1) (p' ++ 0 ∷ []) (drop 1 (drop 1 s))
        (omega (arith, length-append p' (0 ∷ [])))
    ∙ take-append_le (n + 1) p' (0 ∷ []) (omega arith)
    ∙ take-all (n + 1) p' (omega arith)

-- A text that fits.
format_fits :
    (junk header message : List ℕ)
    → length junk ≡ 768
    → length header + length message ≤ 766
    → format_message (snprintf junk 0 capacity header) (length header) message
      ≡ some (header ++ (message ++ b'\n' ∷ []))
unfolding format_message
format_fits junk header message h k =
    let s = 0 ∷ drop (length header + 1) junk in
    let t = 0 ∷ drop (length message + 1) s in
    let inside : ltb capacity (length header) ≡ false = ground arith in
    let line : ltb (length header + length message + 1) capacity ≡ true = ground arith in
    let len = length-append header message in
    let left : capacity - length header ≡ length s =
      omega (arith, length-drop (length header + 1) junk) in
    let both =
      ap (λ b. snprintf b (length header) (capacity - length header) message)
        (snprintf-append [] junk header 0 capacity refl (omega arith) (omega arith))
      ∙ snprintf-append header s message (length header) (capacity - length header) refl
          (omega arith) left in
    rw (inside, line)
      (ap
          (λ b. some (
            take (length header + length message + 1) (
              set (set b (length header + length message) b'\n')
                (length header + length message + 1) 0)))
          both
        ∙ ap some (
            take-line (header ++ message) t (length header + length message) len (
              omega
                (arith, length-drop (length message + 1) s, length-drop (length header + 1) junk))
            ∙ append_assoc header message (b'\n' ∷ [])))

-- With a buffer of 768 bytes, `fwrite` gets the header, the message and a line break, whatever the
-- buffer held before, if header and message have at most 766 bytes together. If they have more than
-- 768, the code reads or writes behind the buffer, since it counts the bytes that `snprintf` would have
-- written.
pub common_format-bounds :
    (junk header message : List ℕ)
    → length junk ≡ 768
    → (length header + length message ≤ 766
        → common_format junk header message ≡ some (header ++ (message ++ b'\n' ∷ [])))
      × (768 < length header + length message → common_format junk header message ≡ none)
unfolding common_format format_message
common_format-bounds junk header message h = (fits, over)
  where
    fits :
        length header + length message ≤ 766
        → format_message (snprintf junk 0 capacity header) (length header) message
          ≡ some (header ++ (message ++ b'\n' ∷ []))
    fits k = format_fits junk header message h k

    over :
        768 < length header + length message
        → format_message (snprintf junk 0 capacity header) (length header) message ≡ none
    over k = elim (Bool-cases (ltb capacity (length header))) [
      | inl long ↦ rw long refl
      | inr short ↦
          let no_line : ltb (length header + length message + 1) capacity ≡ false = ground arith in
          let behind : ltb capacity (length header + length message) ≡ true = ground arith in
          rw (short, no_line, behind) refl
    ]
