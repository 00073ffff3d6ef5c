-- ===== src/Os/Sleep.antt =====
-- `os_sleep`, with a time in nanoseconds.
use stdc.Prelude.{
  ℕ, zero, suc, ◌+◌, ◌-◌, ◌≤◌, ◌≡◌, refl, ◌∙◌, Bool, true, false, List, [], ◌∷◌, arith, Option,
  none, some,
}

-- A call of `nanosleep` sleeps for the time that is asked for, is interrupted by a signal and says what
-- remains, or fails.
pub data SleepAnswer : Type 0 where
  slept : SleepAnswer
  interrupted : ℕ → SleepAnswer
  failed : SleepAnswer

-- The loop, which goes on as long as it is interrupted: whether it has slept the whole time, with the
-- time for which it has slept. With no answer left it still sleeps.
unfoldable pub sleep_loop : List SleepAnswer → ℕ → ℕ → Option Bool × ℕ
sleep_loop [] requested passed = (none, passed)
sleep_loop (slept ∷ answers) requested passed = (some true, passed + requested)
sleep_loop (interrupted remaining ∷ answers) requested passed =
    sleep_loop answers remaining (passed + (requested - remaining))
sleep_loop (failed ∷ answers) requested passed = (some false, passed)

-- A time that is not positive is none.
unfoldable pub sleep : List SleepAnswer → ℕ → Option Bool × ℕ
sleep answers zero = (some true, 0)
sleep answers (suc time) = sleep_loop answers (suc time) 0

-- What remains is never more than what was asked for.
abbrev pub Remains : ℕ → List SleepAnswer → Type 0
Remains requested [] = Unit
Remains requested (slept ∷ answers) = Unit
Remains requested (interrupted remaining ∷ answers) =
    (remaining ≤ requested) × Remains remaining answers
Remains requested (failed ∷ answers) = Unit

sleep_loop_whole :
    (answers : List SleepAnswer) (requested passed : ℕ)
    → Remains requested answers
    → (sleep_loop answers requested passed).0 ≡ some true
    → (sleep_loop answers requested passed).1 ≡ passed + requested
unfolding sleep_loop
sleep_loop_whole [] requested passed h e = absurd (cc e)
sleep_loop_whole (slept ∷ answers) requested passed h e = refl
sleep_loop_whole (interrupted remaining ∷ answers) requested passed h e =
    sleep_loop_whole answers remaining (passed + (requested - remaining)) h.1 e ∙ omega (arith, h.0)
sleep_loop_whole (failed ∷ answers) requested passed h e = absurd (ground (arith, e))

-- However often signals interrupt it, `os_sleep` sleeps for exactly the time that was asked for, if no
-- call fails in another way.
pub sleep_whole :
    (answers : List SleepAnswer) (time : ℕ)
    → Remains time answers
    → (sleep answers time).0 ≡ some true
    → (sleep answers time).1 ≡ time
unfolding sleep
sleep_whole answers zero h e = refl
sleep_whole answers (suc time) h e = sleep_loop_whole answers (suc time) 0 h e ∙ omega arith
