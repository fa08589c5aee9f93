-- ===== src/Cache/Bound.antt =====
-- That a cache never holds more than its capacity after `set`.
use safe_network_archive.Cache.Keys.{
  keys_of, IsDistinct, length-remove_keys, contains-sort, contains-take, sort-IsDistinct,
  take-IsDistinct, length-sort, length-keys, remove_keys-IsSorted, insert-IsSorted, IsSorted,
  IsSorted-IsDistinct,
}
use safe_network_archive.Cache.{
  Cache, expired, sort_oldest, remove_keys, remove_expired, drop_excess, set, new_item, or_else,
}
use safe_network_archive.Prelude.Map
use safe_network_archive.Prelude.{
  ℕ, ◌-◌, ◌≤◌, sym, ◌∙◌, map, Option, ltb, length, take, select, Ord, arith, Bool-cases, inl, inr,
}

module _ {K V : Type 0} ⦃o : Ord K⦄ where
  drop_excess-bound :
      (now : ℕ) (self : Cache K V)
      → IsDistinct (keys_of self.items)
      → length (Cache.items (drop_excess now self)) ≤ self.capacity
  unfolding drop_excess
  drop_excess-bound now self d =
      let sorted = sort_oldest now self.items in
      let excess = length self.items - self.capacity in
      let oldest = keys_of (take excess sorted) in
      ground (
        arith,
        length-remove_keys oldest self.items
            (take-IsDistinct excess sorted (sort-IsDistinct now self.items d))
            (λ j h. sym (contains-sort now self.items j) ∙ contains-take excess sorted j h),
        length-keys excess sorted (omega (arith, length-sort now self.items)),
      )

  drop_excess-IsSorted :
      (now : ℕ) (self : Cache K V)
      → IsSorted (keys_of self.items)
      → IsSorted (keys_of (Cache.items (drop_excess now self)))
  unfolding drop_excess
  drop_excess-IsSorted now self d = elim (Bool-cases (ltb self.capacity (length self.items))) [
    | inr z ↦ rw (z, drop_excess) d
    | inl y ↦ rw (y, drop_excess) (remove_keys-IsSorted _ self.items d)
  ]

  -- If a cache's items are in the order of their keys, none twice, then they are so after `set`, and
  -- they are no more than its capacity.
  pub set-bound :
      (now : ℕ) (self : Cache K V) (key : K) (value : V) (custom_duration : Option ℕ)
      → IsSorted (keys_of self.items)
      → IsSorted (keys_of (Cache.items (set now self key value custom_duration).0))
        × (length (Cache.items (set now self key value custom_duration).0) ≤ self.capacity)
  unfolding set remove_expired
  set-bound now self key value custom_duration d =
      let item = new_item now value (or_else custom_duration self.item_duration) in
      let entered = Map.insert key item self.items in
      let stale = map (λ e. e.0) (select (λ e. expired now e.1) entered) in
      let kept : Cache K V = record self { items = remove_keys stale entered } in
      let sorted = remove_keys-IsSorted stale entered (insert-IsSorted key item self.items d) in
      (
        drop_excess-IsSorted now kept sorted,
        drop_excess-bound now kept (IsSorted-IsDistinct (keys_of kept.items) sorted),
      )
