-- ===== src/HashMap/Table/Api.antt =====
-- The entry points of hashmap.c at a pointer that may be null, which each of them tests first.
use stdc.HashMap.Table.{HashMap, Allocator, add, get, contains, remove, clear, sizeof}
use stdc.HashMap.Variant.{Variant}
use stdc.Prelude.{ℕ, Bool, false, Option, none, some}

-- `__hashmap_add__`
pub hashmap_add : Allocator → Option HashMap → Variant → Variant → Bool × Option HashMap
hashmap_add a none key value = (false, none)
hashmap_add a (some dict) key value = let (ok, dict') = add a dict key value in (ok, some dict')

-- `__hashmap_get__`
pub hashmap_get : Option HashMap → Variant → Option Variant
hashmap_get none key = none
hashmap_get (some dict) key = get dict key

-- `__hashmap_contains__`
pub hashmap_contains : Option HashMap → Variant → Bool
hashmap_contains none key = false
hashmap_contains (some dict) key = contains dict key

-- `__hashmap_remove__`
pub hashmap_remove : Allocator → Option HashMap → Variant → Bool × Option HashMap
hashmap_remove a none key = (false, none)
hashmap_remove a (some dict) key = let (ok, dict') = remove a dict key in (ok, some dict')

-- `hashmap_clear`
pub hashmap_clear : Bool → Option HashMap → Option HashMap
hashmap_clear answer none = none
hashmap_clear answer (some dict) = some (clear answer dict)

-- `hashmap_count`
pub hashmap_count : Option HashMap → ℕ
hashmap_count none = 0
hashmap_count (some dict) = dict.count

-- `__hashmap_sizeof__`
pub hashmap_sizeof : Option HashMap → ℕ
hashmap_sizeof none = 0
hashmap_sizeof (some dict) = sizeof dict
