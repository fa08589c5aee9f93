-- ===== src/UsedSpace.antt =====
-- `UsedSpace` of sn_node/src/storage/used_space.rs: the bytes on disk and the levels reported.
pub mod Levels
use safe_network_archive.Extern.{Doubles}
use safe_network_archive.Membership.{EnvVar, recommended_section_size}
use safe_network_archive.Prelude.{
  ℕ, ◌+◌, ◌-◌, ◌*◌, ◌/◌, ◌%◌, ◌^◌, Bool, Option, none, some, ltb, leb, ◌==◌, if◌then◌else◌,
}

pub data StorageLevel : Type 0 where
  updated : ℕ → StorageLevel
  no_change : StorageLevel

-- The counters are shared and atomic; each operation is one step on them.
pub record UsedSpace : Type 0 where
  pub min_capacity : ℕ
  pub max_capacity : ℕ
  pub last_seen_level : ℕ
  pub used_space : ℕ

abbrev pub new : ℕ → ℕ → UsedSpace
new min_capacity max_capacity = record {
  min_capacity = min_capacity;
  max_capacity = max_capacity;
  last_seen_level = 0;
  used_space = 0;
}

abbrev pub default_min_capacity : ℕ
default_min_capacity = 1024 * 1024 * 1024

abbrev pub default_max_capacity : ℕ
default_max_capacity = 2 * default_min_capacity

abbrev pub default_used_space : UsedSpace
default_used_space = new default_min_capacity default_max_capacity

-- The counter has 64 bits and wraps around.
unfoldable pub decrease : UsedSpace → ℕ → UsedSpace
decrease self size = record self {
  used_space = (self.used_space + (2 ^ 64 - size % 2 ^ 64)) % 2 ^ 64;
}

-- In a release build, where the sum wraps around.
unfoldable pub can_add : UsedSpace → ℕ → Bool
can_add self size = leb ((self.used_space + size) % 2 ^ 64) self.max_capacity

unfoldable pub has_reached_min_capacity : UsedSpace → Bool
has_reached_min_capacity self = leb self.min_capacity self.used_space

-- What the level does to the last one that was seen.
unfoldable pub see_level : UsedSpace → ℕ → UsedSpace × StorageLevel
see_level self current_level =
    if ltb current_level self.last_seen_level
    then (self, no_change)
    else if ltb self.last_seen_level current_level
    then (record self { last_seen_level = current_level }, updated current_level)
    else (self, no_change)

module _ ⦃f : Doubles⦄ where
  abbrev pub ratio : UsedSpace → f.D
  ratio self = f.over (f.of_usize self.used_space) (f.of_usize self.min_capacity)

  -- `none` is the panic of a division by zero.
  unfoldable pub to_storage_level : EnvVar → f.D → Option ℕ
  to_storage_level env ratio =
      if recommended_section_size env == 0
      then none
      else some (f.to_usize (f.times ratio (f.of_usize 100)) / recommended_section_size env % 256)

  unfoldable pub increase : EnvVar → UsedSpace → ℕ → Option (UsedSpace × StorageLevel)
  unfolding to_storage_level see_level
  increase env self size =
      let grown : UsedSpace = record self { used_space = (self.used_space + size) % 2 ^ 64 } in
      elim (to_storage_level env (ratio grown)) [
        | none ↦ none
        | some current_level ↦ some (see_level grown current_level)
      ]
