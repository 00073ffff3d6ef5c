-- ===== src/Socket/Connect.antt =====
-- `socket_connect_timeout`, and the times that it and `socket_setopt_timeout` give to the system.
use stdc.Prelude.Word.{bit_or}
use stdc.Prelude.{
  ℕ, ◌+◌, ◌*◌, ◌/◌, ◌%◌, ◌≤◌, ◌<◌, ◌≡◌, ◌↔◌, ◌⊎◌, Bool, true, false, not, ◌||◌, arith, ◌==◌,
  if◌then◌else◌,
}
use stdc.Socket.Transfer.{timeout_seconds, setopt_timeout}

pub data Select : Type 0 where
  writable expired select_failed : Select

-- What the system's calls return, in the order of the code: `fcntl` to read the flags and to set
-- `O_NONBLOCK`, `connect`, `select`, `getsockopt` with the error that it finds, and the last `fcntl`.
pub record Calls : Type 0 where
  pub readable : Bool
  pub unblocked : Bool
  pub connected : Bool
  pub select : Select
  pub inspected : Bool
  pub error : ℕ
  pub restored : Bool

-- `O_NONBLOCK` on Linux.
abbrev pub nonblock : ℕ
nonblock = 0x800

-- The code between the two changes of the flags: whether `status` is 0.
unfoldable pub attempt : Calls → Bool
attempt c = if c.connected then true else elim c.select [
  | writable ↦ not (not c.inspected || not (c.error == 0))
  | expired ↦ false
  | select_failed ↦ false
]

-- Whether 0 is returned, and the flags of the socket, which are `flags` before the call.
unfoldable pub connect_timeout : Calls → ℕ → Bool × ℕ
connect_timeout c flags =
    if not c.readable || not c.unblocked
    then (false, flags)
    else (let status = attempt c in
        if c.restored then (status, flags) else (false, bit_or flags nonblock))

-- The `timeval` for `select`, in seconds and microseconds, for a time in microseconds.
unfoldable pub select_timeout : ℕ → ℕ × ℕ
select_timeout second = let ms = (second % 1000000 + 500) / 1000 in (second / 1000000, ms * 1000)

-- The connection stands: at once, or after a wait in which no error came up.
abbrev pub Stands : Calls → Type 0
Stands c = (c.connected ≡ true) ⊎ ((c.select ≡ writable) × ((c.inspected ≡ true) × (c.error ≡ 0)))

attempt_iff : (c : Calls) → (attempt c ≡ true) ↔ Stands c
unfolding attempt
attempt_iff c = ground arith

-- `socket_connect_timeout` returns 0 exactly when the flags could be read, set and restored and the
-- connection stands, and then the flags are those from before; whatever it returns, they are those
-- from before unless the call that restores them failed.
pub connect_timeout-restores :
    (c : Calls) (flags : ℕ)
    → (((connect_timeout c flags).0 ≡ true)
        ↔ ((c.readable ≡ true) × ((c.unblocked ≡ true) × ((c.restored ≡ true) × Stands c))))
      × (((connect_timeout c flags).0 ≡ true → (connect_timeout c flags).1 ≡ flags)
          × (c.restored ≡ true → (connect_timeout c flags).1 ≡ flags))
unfolding connect_timeout
connect_timeout-restores c flags = ground (arith, attempt_iff c)

-- `socket_setopt_timeout` refuses a time of more than 2147483 seconds. Any other time is given to
-- the system rounded to the nearest millisecond, halves up, with fewer than 1000000 microseconds
-- beside the seconds.
pub setopt_timeout-nearest :
    (accepted : Bool) (second : ℕ)
    → (2147483000000 < second → (setopt_timeout accepted second).0 ≡ false)
      × (second ≤ 2147483000000
          → ((setopt_timeout accepted second).0 ≡ accepted)
            × (((setopt_timeout accepted second).1.1 < 1000000)
                × ((setopt_timeout accepted second).1.0 * 1000000
                      + (setopt_timeout accepted second).1.1
                    ≡ (second + 500) / 1000 * 1000)))
unfolding setopt_timeout timeout_seconds
setopt_timeout-nearest accepted second = ground arith

-- `socket_connect_timeout` does not carry a full second over: the microseconds that it gives to
-- `select` are 1000000, which is out of the range of a `timeval`, exactly when the time is within
-- half a millisecond below a full second.
pub select_timeout-overflow :
    (second : ℕ) → ((select_timeout second).1 ≡ 1000000) ↔ (999500 ≤ second % 1000000)
unfolding select_timeout
select_timeout-overflow second = ground arith
