-- ===== src/Log.antt =====
-- log.c and log.h: the logger without a thread pool.
use stdc.AsyncLog.{Sink, stdout, callback, register, registered}
use stdc.Prelude.{
  ℕ, ◌≡◌, refl, ap, inl, inr, Bool, true, false, All, List, [], ◌∷◌, ◌++◌, Option, none, some, ◌==◌,
  if◌then◌else◌, Bool-cases,
}

-- `_LogLock` of log.c, but for the lock; a number stands for a callback with its context.
pub record Logger : Type 0 where
  pub mode : ℕ
  pub callbacks : List (Option ℕ)

unfoldable pub set_mode : ℕ → Logger → Logger
set_mode mode log = record log { mode = mode }

-- The loop of `log_add_callback` is that of `async_log_add_callback`.
unfoldable pub log_add_callback : ℕ → Logger → Logger
log_add_callback func log = record log { callbacks = register func log.callbacks }

-- `log_config_write`, where a number stands for the callback that writes to the file.
unfoldable pub log_config_write : ℕ → Logger → Logger
log_config_write file log = log_add_callback file log

-- `__log_print__`: where the event goes, in order.
unfoldable pub log_print : Logger → List Sink
log_print log = let rest = registered log.callbacks in if log.mode == 0 then stdout ∷ rest else rest

-- Whether a place is free.
unfoldable pub vacant : List (Option ℕ) → Bool
vacant [] = false
vacant (none ∷ slots) = true
vacant (some func ∷ slots) = vacant slots

-- The free places stand behind the others.
abbrev pub Packed : List (Option ℕ) → Type 0
Packed [] = Unit
Packed (none ∷ slots) = All (λ s. s ≡ none) slots
Packed (some func ∷ slots) = Packed slots

registered-nothing : (slots : List (Option ℕ)) → All (λ s. s ≡ none) slots → registered slots ≡ []
unfolding registered
registered-nothing [] h = refl
registered-nothing (none ∷ slots) h = refl
registered-nothing (some func ∷ slots) h = absurd (cc (h.0))

registered-register :
    (func : ℕ) (slots : List (Option ℕ))
    → Packed slots
    → registered (register func slots)
      ≡ registered slots ++ (if vacant slots then callback func ∷ [] else [])
unfolding registered register vacant
registered-register func [] h = refl
registered-register func (none ∷ slots) h = ap (◌∷◌ (callback func)) (registered-nothing slots h)
registered-register func (some other ∷ slots) h =
    ap (◌∷◌ (callback other)) (registered-register func slots h)

nothing-Packed : (slots : List (Option ℕ)) → All (λ s. s ≡ none) slots → Packed slots
nothing-Packed [] h = tt
nothing-Packed (none ∷ slots) h = h.1
nothing-Packed (some func ∷ slots) h = absurd (cc (h.0))

register-Packed : (func : ℕ) (slots : List (Option ℕ)) → Packed slots → Packed (register func slots)
unfolding register
register-Packed func [] h = tt
register-Packed func (none ∷ slots) h = nothing-Packed slots h
register-Packed func (some other ∷ slots) h = register-Packed func slots h

-- After `log_add_callback`, `__log_print__` hands an event to those that it went to before, in the same
-- order, and then to the new callback; where all places are taken, the new one is left out and
-- nothing changes. In both cases the free places still stand behind the others, as they must before.
pub log_print-log_add_callback :
    (func : ℕ) (log : Logger)
    → Packed log.callbacks
    → (log_print (log_add_callback func log)
        ≡ log_print log ++ (if vacant log.callbacks then callback func ∷ [] else []))
      × Packed (log_add_callback func log).callbacks
unfolding log_print log_add_callback
log_print-log_add_callback func log h =
    let e = registered-register func log.callbacks h in
    (
      elim (Bool-cases (log.mode == 0)) [
        | inl on ↦ simp on (ap (◌∷◌ stdout) e)
        | inr off ↦ simp off e
      ],
      register-Packed func log.callbacks h,
    )
