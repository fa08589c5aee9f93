-- ===== src/UsedSpace/Levels.antt =====
-- The storage levels that are reported.
use safe_network_archive.Extern.{Doubles}
use safe_network_archive.Membership.{EnvVar}
use safe_network_archive.Prelude.{
  ℕ, ◌+◌, ◌%◌, ◌^◌, ◌<◌, ◌≡◌, refl, sym, ◌∙◌, ap, subst, List, [], ◌∷◌, some, ltb, ltb→lt,
  Bool-cases, Option-cases, inl, inr, arith,
}
use safe_network_archive.UsedSpace.{
  UsedSpace, StorageLevel, updated, no_change, decrease, to_storage_level, see_level, increase,
  ratio,
}

see_level-updated :
    (self after : UsedSpace) (current_level level : ℕ)
    → see_level self current_level ≡ (after, updated level)
    → (self.last_seen_level < level) × (after.last_seen_level ≡ level)
unfolding see_level
see_level-updated self after current_level level h =
    elim (Bool-cases (ltb current_level self.last_seen_level)) [
      | inl y ↦ absurd (cc (rw (y, see_level) at h))
      | inr z ↦ elim (Bool-cases (ltb self.last_seen_level current_level)) [
        | inr w ↦ absurd (cc (rw (z, see_level, w) at h))
        | inl w ↦
            let seen = rw (z, see_level, w) at h in
            let same : current_level ≡ level = cc seen in
            let kept : after.last_seen_level ≡ current_level =
              ap (λ r. UsedSpace.last_seen_level r.0) (sym seen) in
            (omega (arith, same, ltb→lt self.last_seen_level current_level w), kept ∙ same)
      ]
    ]

see_level-no_change :
    (self after : UsedSpace) (current_level : ℕ)
    → see_level self current_level ≡ (after, no_change)
    → after.last_seen_level ≡ self.last_seen_level
unfolding see_level
see_level-no_change self after current_level h =
    elim (Bool-cases (ltb current_level self.last_seen_level)) [
      | inl y ↦ ap (λ r. UsedSpace.last_seen_level r.0) (sym (rw (y, see_level) at h))
      | inr z ↦ elim (Bool-cases (ltb self.last_seen_level current_level)) [
        | inr w ↦ ap (λ r. UsedSpace.last_seen_level r.0) (sym (rw (z, see_level, w) at h))
        | inl w ↦ absurd (cc (rw (z, see_level, w) at h))
      ]
    ]

module _ ⦃f : Doubles⦄ where
  -- A sequence of changes of the used space, with the levels reported in it, the last one first.
  pub data Run (env : EnvVar) (first : UsedSpace) : List ℕ → UsedSpace → Type 0 where
    started : Run env first [] first
    grew :
        {levels : List ℕ} {before : UsedSpace} (size : ℕ) (after : UsedSpace) (level : ℕ)
        → Run env first levels before
        → increase env before size ≡ some (after, updated level)
        → Run env first (level ∷ levels) after
    grew_within :
        {levels : List ℕ} {before : UsedSpace} (size : ℕ) (after : UsedSpace)
        → Run env first levels before
        → increase env before size ≡ some (after, no_change)
        → Run env first levels after
    shrank :
        {levels : List ℕ} {before : UsedSpace} (size : ℕ)
        → Run env first levels before
        → Run env first levels (decrease before size)

  -- Levels, the last one first, that rise strictly from one level to another.
  abbrev pub Rises : ℕ → List ℕ → ℕ → Type 0
  Rises from [] to = from ≡ to
  Rises from (level ∷ levels) to =
      (level ≡ to) × ((lower : ℕ) × (lower < level) × Rises from levels lower)

  increase-see_level :
      (env : EnvVar) (self after : UsedSpace) (size : ℕ) (report : StorageLevel)
      → increase env self size ≡ some (after, report)
      → (level : ℕ) × (see_level
            (record self { used_space = (self.used_space + size) % 2 ^ 64 })
            level
          ≡ (after, report))
  unfolding increase
  increase-see_level env self after size report h =
      let grown : UsedSpace = record self { used_space = (self.used_space + size) % 2 ^ 64 } in
      elim (Option-cases (to_storage_level env (ratio grown))) [
        | inl e ↦ absurd (cc (rw (e, increase) at h))
        | inr (level, e) ↦ (level, cc (rw (e, increase) at h))
      ]

  -- In any sequence of increases and decreases the levels that are reported rise strictly, from the
  -- level that was last seen before it to the one that is after it: none is reported twice.
  pub Run-Rises :
      (env : EnvVar) (first : UsedSpace) (levels : List ℕ) (last : UsedSpace)
      → Run env first levels last
      → Rises first.last_seen_level levels last.last_seen_level
  unfolding decrease
  Run-Rises env first _ _ started = refl
  Run-Rises env first _ _ (grew {levels} {before} size after level run h) =
      let (current_level, seen) = increase-see_level env before after size (updated level) h in
      let (over, same) =
        see_level-updated (record before { used_space = (before.used_space + size) % 2 ^ 64 }) after
          current_level level seen in
      (sym same, (before.last_seen_level, over, Run-Rises env first levels before run))
  Run-Rises env first _ _ (grew_within {levels} {before} size after run h) =
      let (current_level, seen) = increase-see_level env before after size no_change h in
      let same =
        see_level-no_change (record before { used_space = (before.used_space + size) % 2 ^ 64 })
          after current_level seen in
      subst (Rises first.last_seen_level levels) (sym same) (Run-Rises env first levels before run)
  Run-Rises env first _ _ (shrank {levels} {before} size run) =
      Run-Rises env first levels before run
