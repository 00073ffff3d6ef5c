-- ===== src/HashMap/Table/Refine/History.antt =====
-- Any history of calls on a table, and reading back what was added.
use stdc.HashMap.Table.Buckets.{put}
use stdc.HashMap.Table.Rehash.{Reading}
use stdc.HashMap.Table.Refine.Reads.{get-Models, clear-Models}
use stdc.HashMap.Table.Refine.Removes.{remove-Removed}
use stdc.HashMap.Table.Refine.Writes.{add-Added}
use stdc.HashMap.Table.Refine.{Models}
use stdc.HashMap.Table.{HashMap, Allocator, add, get, remove, clear}
use stdc.HashMap.Variant.Laws.{canonical, equals_sound}
use stdc.HashMap.Variant.{Variant, float, equals, is_key}
use stdc.Prelude.{
  ◌+◌, ◌^◌, ◌≤◌, ◌<◌, ◌≡◌, refl, sym, ap, ◌∙◌, Bool, true, false, none, some, List, [], ◌∷◌, arith,
  if◌then◌else◌, length, inl, inr, Bool-cases,
}

is_key-canonical : (x : Variant) → is_key (canonical x) ≡ is_key x
unfolding is_key canonical
is_key-canonical (float f) = refl
is_key-canonical _ = refl

is_key-equals : (x y : Variant) → equals x y ≡ true → is_key x ≡ is_key y
is_key-equals x y h = sym (is_key-canonical x) ∙ ap is_key (equals_sound x y h) ∙ is_key-canonical y

add-is_key :
    (a : Allocator) (dict : HashMap) (k v : Variant) → (add a dict k v).0 ≡ true → is_key k ≡ true
unfolding add
add-is_key a dict k v h = elim (Bool-cases (is_key k)) [
  | inl proper ↦ proper
  | inr improper ↦ let refused : false ≡ true = rw (improper, add) at h in cc
]

-- On a table that represents a map and has room to count one more pair, after an `__hashmap_add__`
-- that returned `True`, a `__hashmap_get__` of any key equal to the added one finds the value.
pub get-add :
    {f : Reading} {dict : HashMap} (a : Allocator) (k q v : Variant)
    → Models f dict
    → dict.count + 1 < 2 ^ 64
    → (add a dict k v).0 ≡ true
    → equals k q ≡ true
    → get (add a dict k v).1 q ≡ some v
get-add {f} a k q v m room succeeded same =
    let w = add-Added a k v m room in
    let proper = sym (is_key-equals k q same) ∙ add-is_key a _ k v succeeded in
    get-Models q w.models ∙ (rw (proper, succeeded, same))

pub data Request : Type 0 where
  adds : Allocator → Variant → Variant → Request
  removes : Allocator → Variant → Request
  clears : Bool → Request

pub step : Request → HashMap → Bool × HashMap
step (adds a k v) dict = add a dict k v
step (removes a k) dict = remove a dict k
step (clears answer) dict = (true, clear answer dict)

-- What a call that returned `ok` does to the map.
pub effect : Request → Bool → Reading → Reading
effect r false f = f
effect (adds a k v) true f = put f k (some v)
effect (removes a k) true f = put f k none
effect (clears answer) true f = λ _. none

pub run : List Request → HashMap → HashMap
unfolding step
run [] dict = dict
run (r ∷ rs) dict = run rs (step r dict).1

pub replay : List Request → HashMap → Reading → Reading
unfolding effect step
replay [] dict f = f
replay (r ∷ rs) dict f = let (ok, dict') = step r dict in replay rs dict' (effect r ok f)

effect-adds :
    (a : Allocator) (k v : Variant) (ok : Bool) (f : Reading)
    → effect (adds a k v) ok f ≡ (if ok then put f k (some v) else f)
unfolding effect
effect-adds a k v true f = refl
effect-adds a k v false f = refl

effect-removes :
    (a : Allocator) (k : Variant) (ok : Bool) (f : Reading)
    → effect (removes a k) ok f ≡ (if ok then put f k none else f)
unfolding effect
effect-removes a k true f = refl
effect-removes a k false f = refl

step-Models :
    {f : Reading} {dict : HashMap} (r : Request)
    → Models f dict
    → dict.count + 1 < 2 ^ 64
    → Models (effect r (step r dict).0 f) (step r dict).1 × ((step r dict).1.count ≤ dict.count + 1)
unfolding step effect
step-Models {f} {dict} (adds a k v) m room =
    let w = add-Added a k v m room in (rw effect-adds w.models, ground (arith, w.count))
step-Models {f} {dict} (removes a k) m room =
    let w = remove-Removed a k m in (rw effect-removes w.models, omega (arith, w.count))
step-Models {f} {dict} (clears answer) m room =
    let w = clear-Models answer m in (w.0, omega (arith, w.1))

-- From a table that represents a map, after any history of calls of `__hashmap_add__`,
-- `__hashmap_remove__` and `hashmap_clear`, and as long as pairs and calls are fewer than 2 ^ 64,
-- the table represents the map that the calls describe, one by one, by what they returned.
pub run-Models :
    (rs : List Request) (f : Reading) (dict : HashMap)
    → Models f dict
    → dict.count + length rs < 2 ^ 64
    → Models (replay rs dict f) (run rs dict)
unfolding run replay
run-Models [] f dict m room = m
run-Models (r ∷ rs) f dict m room =
    let (after, counted) = step-Models r m (omega arith) in
    run-Models rs (effect r (step r dict).0 f) (step r dict).1 after (omega arith)
