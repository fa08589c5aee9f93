-- ===== src/Cache.antt =====
-- `Cache` of sn_interface/src/types/cache/mod.rs and its `Item` of sn_interface/src/types/cache/item.rs.
-- Instants and durations are in nanoseconds. The instant of a call is an argument, one for the whole
-- call; the source reads the clock again for every item.
pub mod Bound
pub mod Keys
pub mod Lookup
use safe_network_archive.Prelude.Map
use safe_network_archive.Prelude.{
  ℕ, ◌+◌, ◌-◌, ◌/◌, Bool, true, false, not, List, [], ◌∷◌, map, Option, none, some, ltb, leb,
  length, take, select, Ord, if◌then◌else◌,
}

pub record Time : Type 0 where
  pub start : ℕ
  pub expiry : ℕ

pub record Item (V : Type 0) : Type 0 where
  pub object : V
  pub time : Option Time

module _ {V : Type 0} where
  unfoldable pub new_item : ℕ → V → Option ℕ → Item V
  new_item now object none = record { object = object; time = none }
  new_item now object (some duration) = record {
    object = object;
    time = some (record { start = now; expiry = now + duration });
  }

  unfoldable pub expired : ℕ → Item V → Bool
  expired now self = elim self.time [ none ↦ false | some time ↦ ltb (Time.expiry time) now ]

  -- In milliseconds; an item without a time has elapsed zero.
  unfoldable pub elapsed : ℕ → Item V → ℕ
  elapsed now self = elim self.time [ none ↦ 0 | some time ↦ (now - Time.start time) / 1000000 ]

  abbrev pub live : ℕ → Option (Item V) → Option V
  live now none = none
  live now (some item) = if expired now item then none else some item.object

abbrev pub or_else : Option ℕ → Option ℕ → Option ℕ
or_else none other = other
or_else (some duration) other = some duration

abbrev pub usize_max : ℕ
usize_max = 18446744073709551615

pub record Cache (K V : Type 0) : Type 0 where
  pub items : List (K × Item V)
  pub item_duration : Option ℕ
  pub capacity : ℕ

module _ {K V : Type 0} where
  unfoldable pub with_capacity : ℕ → Cache K V
  with_capacity capacity = record { items = []; item_duration = none; capacity = capacity }

  unfoldable pub with_expiry_duration : ℕ → Cache K V
  with_expiry_duration duration = record {
    items = [];
    item_duration = some duration;
    capacity = usize_max;
  }

  unfoldable pub with_expiry_duration_and_capacity : ℕ → ℕ → Cache K V
  with_expiry_duration_and_capacity duration capacity = record {
    items = [];
    item_duration = some duration;
    capacity = capacity;
  }

  abbrev pub len : Cache K V → ℕ
  len self = length self.items

  unfoldable pub is_empty : Cache K V → Bool
  is_empty self = elim self.items [ [] ↦ true | e ∷ rest ↦ false ]

  unfoldable pub count : Cache K V → (K × Item V → Bool) → ℕ
  count self predicate = length (select predicate self.items)

  unfoldable pub clear : Cache K V → Cache K V
  clear self = record self { items = [] }

  -- The longest elapsed first; the sort is stable.
  unfoldable pub place_oldest : ℕ → K × Item V → List (K × Item V) → List (K × Item V)
  place_oldest now e [] = e ∷ []
  place_oldest now e (f ∷ rest) =
      if leb (elapsed now f.1) (elapsed now e.1) then e ∷ f ∷ rest else f ∷ place_oldest now e rest

  unfoldable pub sort_oldest : ℕ → List (K × Item V) → List (K × Item V)
  unfolding place_oldest
  sort_oldest now [] = []
  sort_oldest now (e ∷ rest) = place_oldest now e (sort_oldest now rest)

module _ {K V : Type 0} ⦃o : Ord K⦄ where
  unfoldable pub get : ℕ → Cache K V → K → Option V
  get now self key = live now (Map.get key self.items)

  -- `get_mut`, with what the caller makes of the value.
  unfoldable pub get_mut : ℕ → Cache K V → K → (V → V) → Cache K V
  get_mut now self key change = elim (Map.get key self.items) [
    | none ↦ self
    | some item ↦ if expired now item then self else record self {
      items = Map.insert key (record item { object = change item.object }) self.items;
    }
  ]

  unfoldable pub remove_keys : List K → List (K × Item V) → List (K × Item V)
  remove_keys [] items = items
  remove_keys (key ∷ keys) items = remove_keys keys (Map.remove key items)

  unfoldable pub remove_expired : ℕ → Cache K V → Cache K V
  remove_expired now self =
      let expired_keys = map (λ e. e.0) (select (λ e. expired now e.1) self.items) in
      record self { items = remove_keys expired_keys self.items }

  unfoldable pub drop_excess : ℕ → Cache K V → Cache K V
  drop_excess now self =
      if ltb self.capacity (len self)
      then (let excess = len self - self.capacity in
          let excess_keys = map (λ e. e.0) (take excess (sort_oldest now self.items)) in
          record self { items = remove_keys excess_keys self.items })
      else self

  unfoldable pub set : ℕ → Cache K V → K → V → Option ℕ → Cache K V × Option V
  set now self key value custom_duration =
      let item = new_item now value (or_else custom_duration self.item_duration) in
      let replaced = live now (Map.get key self.items) in
      (
        drop_excess now
            (remove_expired now (record self { items = Map.insert key item self.items })),
        replaced,
      )

  unfoldable pub remove : Cache K V → K → Cache K V × Option V
  remove self key = elim (Map.get key self.items) [
    | none ↦ (record self { items = Map.remove key self.items }, none)
    | some item ↦ (record self { items = Map.remove key self.items }, some item.object)
  ]
