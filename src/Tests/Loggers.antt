-- ===== src/Tests/Loggers.antt =====
-- The loggers on a few messages.
use stdc.AsyncLog.Format.{snprintf, format_message, common_format, common_format-bounds}
use stdc.AsyncLog.Reach.{reach-Sound, print_begin-claims}
use stdc.AsyncLog.Sound.{Sound}
use stdc.AsyncLog.Tasks.{occ}
use stdc.AsyncLog.{
  Message, no_message, stdout, callback, LogLock, link_loop, log_init, register, registered,
  allocate, deallocate, sinks, World, print_begin, print_end, worker, begins, ends, works, Steps,
  stay, step, started,
}
use stdc.Log.{log_add_callback, log_print, vacant}
use stdc.Prelude.Blocks.{copy_into}
use stdc.Prelude.{
  ℕ, ◌+◌, ◌≡◌, ◌<◌, ◌≤◌, refl, true, false, List, [], ◌∷◌, ◌++◌, none, some, arith, length,
  replicate,
}

program : Unit {0}
unfolding link_loop log_init register registered allocate deallocate sinks print_begin print_end
    worker log_add_callback log_print vacant snprintf format_message common_format copy_into
    replicate
program = tt

abbrev empty : LogLock
empty = record {
  mode = 0;
  callbacks = none ∷ none ∷ [];
  running = false;
  array = no_message ∷ no_message ∷ [];
  next = none ∷ none ∷ [];
  linklist = none;
}

abbrev hello : Message
hello = record { file = []; line = 3; level = 2; time = 0; message = b'h' ∷ b'i' ∷ [] }

-- One message from the call to the worker.
abbrev first : World
first = print_begin (started 2 empty)

abbrev second : World
second = print_end 0 hello true (record first { claimed = [] })

abbrev third : World
third = worker 0 (record second { queue = [] })

handed_on : third.finished ≡ (hello, stdout ∷ []) ∷ []
unfolding program
handed_on = refl

history : Steps (started 2 empty) third
unfolding program
history =
    step (step (step (stay _) (begins (started 2 empty))) (ends first [] [] 0 hello true refl))
      (works second [] [] 0 refl)

reach-Sound_example : Sound 2 third
reach-Sound_example = reach-Sound 2 empty refl refl refl (omega arith) history

print_begin-claims_example :
    (t : ℕ) × (((print_begin third).claimed ≡ t ∷ third.claimed)
      × ((occ t third.claimed ≡ 0) × (occ t third.queue ≡ 0)))
print_begin-claims_example =
    print_begin-claims third (reach-Sound 2 empty refl refl refl (omega arith) history)
      (unfold program in omega arith)

added_last :
    log_print (log_add_callback 5 (record { mode = 0; callbacks = some 4 ∷ none ∷ [] }))
    ≡ stdout ∷ callback 4 ∷ callback 5 ∷ []
unfolding program
added_last = refl

abbrev header : List ℕ
header = b'a' ∷ []

abbrev note : List ℕ
note = b'b' ∷ []

abbrev junk : List ℕ
junk = replicate 768 7

length-junk : length junk ≡ 768
unfolding program
length-junk = refl

common_format-bounds_example :
    (length header + length note ≤ 766
      → common_format junk header note ≡ some (header ++ (note ++ b'\n' ∷ [])))
    × (768 < length header + length note → common_format junk header note ≡ none)
common_format-bounds_example = common_format-bounds junk header note length-junk
