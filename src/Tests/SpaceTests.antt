-- ===== src/Tests/SpaceTests.antt =====
-- Storage levels of a small disk, and the theorem there.
use safe_network_archive.Extern.{Doubles}
use safe_network_archive.Membership.{missing, elder_count, recommended_section_size}
use safe_network_archive.Prelude.{ℕ, ◌*◌, ◌/◌, ◌≡◌, refl, false, [], ◌∷◌, some}
use safe_network_archive.UsedSpace.{
  UsedSpace, updated, no_change, new, decrease, can_add, has_reached_min_capacity, to_storage_level,
  see_level, increase,
}
use safe_network_archive.UsedSpace.Levels.{started, grew, grew_within, shrank, Rises, Run-Rises}

-- Hundredths, rounded down.
instance abbrev toy_doubles : Doubles
toy_doubles = record {
  D = ℕ;
  of_usize = λ n. 100 * n;
  to_usize = λ a. a / 100;
  times = λ a c. a * c / 100;
  over = λ a c. a * 100 / c;
}

space_program : Unit {0}
unfolding decrease can_add has_reached_min_capacity to_storage_level see_level increase elder_count
    recommended_section_size
space_program = tt

abbrev disk : UsedSpace
disk = new 100 200

abbrev half_full : UsedSpace
half_full = record disk { used_space = 50; last_seen_level = 3 }

abbrev nearly_full : UsedSpace
nearly_full = record disk { used_space = 80; last_seen_level = 5 }

half_reported : increase missing disk 50 ≡ some (half_full, updated 3)
unfolding space_program
half_reported = refl

half_not_reported_again : increase missing (decrease half_full 10) 10 ≡ some (half_full, no_change)
unfolding space_program
half_not_reported_again = refl

-- A disk that is as full as it must be has the level 7, of 14 nodes.
full_level :
    increase missing disk 100
    ≡ some (record disk { used_space = 100; last_seen_level = 7 }, updated 7)
unfolding space_program
full_level = refl

half_is_not_enough : has_reached_min_capacity half_full ≡ false
unfolding space_program
half_is_not_enough = refl

too_much : can_add half_full 151 ≡ false
unfolding space_program
too_much = refl

Run-Rises_example : Rises 0 (5 ∷ 3 ∷ []) 5
unfolding space_program
Run-Rises_example = Run-Rises missing disk (5 ∷ 3 ∷ []) nearly_full (
    grew 30 nearly_full 5
      (grew_within 10 half_full (shrank 10 (grew 50 half_full 3 started refl)) refl) refl)
