-- ===== src/Tests/CacheTests.antt =====
-- Runs of `Cache`, and its theorems there.
use safe_network_archive.Cache.Bound.{set-bound}
use safe_network_archive.Cache.Keys.{keys_of, IsSorted}
use safe_network_archive.Cache.Lookup.{get-set}
use safe_network_archive.Cache.{
  Cache, get, set, with_capacity, with_expiry_duration_and_capacity, new_item, expired, elapsed,
  remove_expired, drop_excess, remove_keys, sort_oldest, place_oldest,
}
use safe_network_archive.Prelude.Map
use safe_network_archive.Prelude.Sets
use safe_network_archive.Prelude.{
  ℕ, ◌≤◌, ◌≡◌, refl, [], ◌∷◌, none, some, length, select, nat_ord, arith,
}

cache_program : Unit {0}
unfolding get set with_capacity with_expiry_duration_and_capacity new_item expired elapsed
    remove_expired drop_excess remove_keys sort_oldest place_oldest Map.get Map.insert Map.remove
    Map.contains_key select Sets.contains
cache_program = tt

abbrev start : Cache ℕ ℕ
start = record { items = []; item_duration = some 1000; capacity = 2 }

abbrev one_item : Cache ℕ ℕ
one_item = (set ⦃o = nat_ord⦄ 50 start 7 70 none).0

one_item-IsSorted : IsSorted (keys_of one_item.items)
unfolding cache_program
one_item-IsSorted = (λ j h. absurd (ground arith), tt)

set-bound_example :
    IsSorted (keys_of (Cache.items (set 60 one_item 3 30 none).0))
    × (length (Cache.items (set 60 one_item 3 30 none).0) ≤ 2)
unfolding cache_program
set-bound_example = set-bound 60 one_item 3 30 none one_item-IsSorted

get-set_run : get 60 (set 60 one_item 3 30 none).0 7 ≡ some 70
unfolding cache_program
get-set_run = get-set 60 one_item 3 30 none 7 one_item-IsSorted (omega arith)

-- The items of a cache without durations have all elapsed zero: not the oldest item goes, but the
-- one of the least key, here the one just set.
least_key_goes :
    keys_of ⦃o = nat_ord⦄ (
      Cache.items
        (set 3
          (set 2 (set 1 (with_capacity {K = ℕ} {V = ℕ} 2) 5 50 none).0 6 60 none).0
          4
          40
          none).0)
    ≡ 5 ∷ 6 ∷ []
unfolding cache_program
least_key_goes = refl
