-- ===== src/AsyncLog/Messages.antt =====
-- The messages of the tasks of async_log.c, counted by a property.
use stdc.AsyncLog.{Message, no_message, Sink}
use stdc.AsyncLog.Tasks.{occ, Free, last, link, from}
use stdc.Prelude.{
  ℕ, zero, suc, ◌+◌, ◌≡◌, ◌≢◌, refl, ap, ap₂, subst, Bool, List, [], ◌∷◌, ◌++◌, arith, Option, none,
  some, if◌then◌else◌, length, get_or, set, get_or-set_ne, length-append,
}

-- How many of the messages have a property.
unfoldable pub tally : (Message → Bool) → List Message → ℕ
tally p [] = 0
tally p (m ∷ ms) = (if p m then 1 else 0) + tally p ms

-- The messages of tasks.
unfoldable pub messages : List Message → List ℕ → List Message
messages array [] = []
messages array (i ∷ is) = get_or array i no_message ∷ messages array is

unfoldable pub delivered : List (Message × List Sink) → List Message
delivered [] = []
delivered ((m, to) ∷ finished) = m ∷ delivered finished

pub tally-middle :
    (p : Message → Bool) (array : List Message) (i : ℕ) (front back : List ℕ)
    → tally p (messages array (front ++ i ∷ back))
      ≡ (if p (get_or array i no_message) then 1 else 0) + tally p (messages array (front ++ back))
unfolding tally messages
tally-middle p array i [] back = refl
tally-middle p array i (x ∷ front) back = omega (arith, tally-middle p array i front back)

pub messages-set :
    (array : List Message) (i : ℕ) (m : Message) (xs : List ℕ)
    → occ i xs ≡ 0
    → messages (set array i m) xs ≡ messages array xs
unfolding messages occ
messages-set array i m [] h = refl
messages-set array i m (x ∷ xs) h =
    let ne : i ≢ x = ground arith in
    ap₂ ◌∷◌ (get_or-set_ne array i x m no_message ne) (messages-set array i m xs (ground arith))

pub length-middle :
    (t : ℕ) (front back : List ℕ) → length (front ++ t ∷ back) ≡ suc (length (front ++ back))
length-middle t front back = omega (arith, length-append front (t ∷ back), length-append front back)

pub length-from : (n i : ℕ) → length (from n i) ≡ n
unfolding from
length-from zero i = refl
length-from (suc n) i = ap suc (length-from n (i + 1))

-- The first task of a list.
pub Free-head :
    {next : List (Option ℕ)} {h : Option ℕ} {t : ℕ} {free : List ℕ}
    → h ≡ some t
    → Free next h free
    → (xs : List ℕ) × ((free ≡ t ∷ xs) × Free next (get_or next t none) xs)
Free-head e last = absurd (cc e)
Free-head {next} {h} {t} e (link i {xs} f) =
    let same : i ≡ t = ground (arith, e) in
    (xs, (ap (λ k. k ∷ xs) same, subst (λ k. Free next (get_or next k none) xs) same f))
