-- ===== src/Cache/Lookup.antt =====
-- What `get` returns after `set`, in a cache that is not full.
use safe_network_archive.Cache.Keys.{
  keys_of, IsSorted, IsDistinct, IsSorted-IsDistinct, insert-IsSorted, length-remove-le,
}
use safe_network_archive.Cache.{
  Cache, Item, expired, live, get, remove_keys, remove_expired, drop_excess, set, new_item, or_else,
}
use safe_network_archive.Prelude.Map
use safe_network_archive.Prelude.Sets
use safe_network_archive.Prelude.{
  ℕ, ◌+◌, ◌≤◌, ◌<◌, ◌≡◌, refl, ◌∙◌, Bool, false, List, [], ◌∷◌, map, Option, none, some, ltb,
  length, select, Ord, ◌=?◌, if◌then◌else◌, arith, Option-cases, inl, inr,
}

module _ {V : Type 0} where
  abbrev is_stale : ℕ → Option (Item V) → Bool
  is_stale now none = false
  is_stale now (some item) = expired now item

  live-new_item :
      (now : ℕ) (value : V) (duration : Option ℕ)
      → live now (some (new_item now value duration)) ≡ some value
  unfolding new_item expired
  live-new_item now value none = refl
  live-new_item now value (some duration) = ground arith

module _ {K V : Type 0} ⦃o : Ord K⦄ where
  get-remove_keys :
      (keys : List K) (items : List (K × Item V)) (j : K)
      → Map.get j (remove_keys keys items)
        ≡ (if Sets.contains j keys then none else Map.get j items)
  unfolding remove_keys Sets.contains
  get-remove_keys [] items j = refl
  get-remove_keys (k ∷ keys) items j =
      ground (
        arith,
        get-remove_keys keys (Map.remove k items) j,
        Map.get-remove k j items,
        o.beq_iff k j,
      )

  length-remove_keys-le :
      (keys : List K) (items : List (K × Item V)) → length (remove_keys keys items) ≤ length items
  unfolding remove_keys
  length-remove_keys-le [] items = omega arith
  length-remove_keys-le (k ∷ keys) items =
      omega (arith, length-remove_keys-le keys (Map.remove k items), length-remove-le k items)

  length-insert-le :
      (k : K) (v : Item V) (items : List (K × Item V))
      → length (Map.insert k v items) ≤ length items + 1
  unfolding Map.insert
  length-insert-le k v [] = omega arith
  length-insert-le k v (e ∷ rest) = ground (arith, length-insert-le k v rest)

  abbrev stale_keys : ℕ → List (K × Item V) → List K
  stale_keys now items = map (λ e. e.0) (select (λ e. expired now e.1) items)

  stale_keys-missing :
      (now : ℕ) (items : List (K × Item V)) (j : K)
      → Sets.contains j (keys_of items) ≡ false
      → Sets.contains j (stale_keys now items) ≡ false
  unfolding Sets.contains select
  stale_keys-missing now [] j h = h
  stale_keys-missing now (e ∷ rest) j h = ground (arith, stale_keys-missing now rest j)

  contains-stale_keys :
      (now : ℕ) (items : List (K × Item V)) (j : K)
      → IsDistinct (keys_of items)
      → Sets.contains j (stale_keys now items) ≡ is_stale now (Map.get j items)
  unfolding Sets.contains select Map.get
  contains-stale_keys now [] j d = refl
  contains-stale_keys now (e ∷ rest) j d = ground (
    arith,
    contains-stale_keys now rest j d.1,
    stale_keys-missing now rest e.0 d.0,
    stale_keys-missing now rest j,
    o.beq_iff e.0 j,
  )

  live-remove_stale :
      (now : ℕ) (items : List (K × Item V)) (j : K)
      → IsDistinct (keys_of items)
      → live now (Map.get j (remove_keys (stale_keys now items) items)) ≡ live now (Map.get j items)
  live-remove_stale now items j d = elim (Option-cases (Map.get j items)) [
    | inl z ↦ ground (arith, get-remove_keys (stale_keys now items) items j)
    | inr (item, z) ↦
        ground
          (arith, get-remove_keys (stale_keys now items) items j, contains-stale_keys now items j d)
  ]

  -- In a cache that is not full and has its items in the order of their keys, none twice, `get`
  -- returns after `set`, at the same instant, the value that was set for its key, and for every
  -- other key what it returned before.
  pub get-set :
      (now : ℕ) (self : Cache K V) (key : K) (value : V) (custom_duration : Option ℕ) (j : K)
      → IsSorted (keys_of self.items)
      → length self.items < self.capacity
      → get now (set now self key value custom_duration).0 j
        ≡ (if key =? j then some value else get now self j)
  unfolding get set remove_expired drop_excess
  get-set now self key value custom_duration j d room =
      let duration = or_else custom_duration self.item_duration in
      let entered = Map.insert key (new_item now value duration) self.items in
      let kept = remove_keys (stale_keys now entered) entered in
      let fits : ltb self.capacity (length kept) ≡ false = ground (
        arith,
        length-remove_keys-le (stale_keys now entered) entered,
        length-insert-le key (new_item now value duration) self.items,
      ) in
      let same =
        live-remove_stale now entered j
          (IsSorted-IsDistinct (keys_of entered) (insert-IsSorted key _ self.items d)) in
      rw (fits, drop_excess)
        (same
          ∙ ground (
            arith,
            Map.get-insert key j (new_item now value duration) self.items,
            live-new_item now value duration,
            o.beq_iff key j,
          ))
