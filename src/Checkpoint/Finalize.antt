-- ===== src/Checkpoint/Finalize.antt =====
-- `finalize_checkpoint` puts a new checkpoint in place of an old one (nemo_rl/utils/checkpoint.py).
use ne_mo_rl.Common.{ℕ, ◌≡◌, refl, ◌∙◌, Option, none, some, inl, inr, ◌⊎◌, ok}
use ne_mo_rl.Checkpoint.{
  step, tmp_step, old_step, Checkpoint, Disk, lookup, renamed, rename, rmtree, move_into_place,
}
use ne_mo_rl.Checkpoint.Disk.{
  lookup-renamed_new, lookup-renamed_old, lookup-renamed_other, lookup-rmtree, lookup-rmtree_self,
}

module _ {M A : Type 0} (n : ℕ) (d : Disk M A) where
  -- The directory after the first `rename`, with the old checkpoint aside.
  abbrev aside : Disk M A
  aside = renamed (step n) (old_step n) d

  -- The directory after both.
  abbrev replaced : Disk M A
  replaced = renamed (tmp_step n) (step n) aside

  abbrev published : Disk M A
  published = rmtree (old_step n) replaced

  -- What the directory has of step `n` at the end.
  abbrev pub Published : Checkpoint M A → Disk M A → Type 0
  Published c d' =
      (lookup (step n) d' ≡ some c)
      × (lookup (tmp_step n) d' ≡ none)
      × (lookup (old_step n) d' ≡ none)

  module _ (c : Checkpoint M A) (complete : lookup (tmp_step n) d ≡ some c) where
    fresh-Published :
        lookup (step n) d ≡ none
        → lookup (old_step n) d ≡ none
        → Published c (renamed (tmp_step n) (step n) d)
    fresh-Published none_yet free = (
      lookup-renamed_new (tmp_step n) (step n) d none_yet ∙ complete,
      lookup-renamed_old (tmp_step n) (step n) d refl,
      lookup-renamed_other (tmp_step n) (step n) (old_step n) d refl refl ∙ free,
    )

    -- Between the two renamings the old checkpoint has another name, and the new one is complete.
    aside_lookups :
        (old : Checkpoint M A)
        → lookup (step n) d ≡ some old
        → lookup (old_step n) d ≡ none
        → (lookup (step n) aside ≡ none)
          × (lookup (old_step n) aside ≡ some old)
          × (lookup (tmp_step n) aside ≡ some c)
    aside_lookups old there free = (
      lookup-renamed_old (step n) (old_step n) d refl,
      lookup-renamed_new (step n) (old_step n) d free ∙ there,
      lookup-renamed_other (step n) (old_step n) (tmp_step n) d refl refl ∙ complete,
    )

    replaced_lookups :
        (old : Checkpoint M A)
        → lookup (step n) d ≡ some old
        → lookup (old_step n) d ≡ none
        → (lookup (step n) replaced ≡ some c)
          × (lookup (old_step n) replaced ≡ some old)
          × (lookup (tmp_step n) replaced ≡ none)
    replaced_lookups old there free =
        let (gone, kept, new) = aside_lookups old there free in
        (
          lookup-renamed_new (tmp_step n) (step n) aside gone ∙ new,
          lookup-renamed_other (tmp_step n) (step n) (old_step n) aside refl refl ∙ kept,
          lookup-renamed_old (tmp_step n) (step n) aside refl,
        )

    moved_aside :
        (old : Checkpoint M A)
        → lookup (step n) d ≡ some old
        → lookup (old_step n) d ≡ none
        → move_into_place n d ≡ ok published
    unfolding move_into_place rename
    moved_aside old there free =
        let (gone, kept, new) = aside_lookups old there free in
        let (done, left, empty) = replaced_lookups old there free in
        rw (there, free, new, gone, left) refl

    lookup_cases :
        (o : Option (Checkpoint M A)) → (o ≡ none) ⊎ ((old : Checkpoint M A) × (o ≡ some old))
    lookup_cases none = inl refl
    lookup_cases (some old) = inr (old, refl)

    -- If `tmp_step_{n}` is complete and no `old_step_{n}` is left from before,
    -- `finalize_checkpoint` moves it to `step_{n}`, whether or not there was a checkpoint with that
    -- name, and neither the temporary nor the old directory is left when the clean-up of other
    -- steps begins.
    pub move_into_place-Published :
        lookup (old_step n) d ≡ none
        → (d' : Disk M A) × (move_into_place n d ≡ ok d') × Published c d'
    unfolding move_into_place rename
    move_into_place-Published free = elim (lookup_cases (lookup (step n) d)) [
      | inl e ↦ (renamed (tmp_step n) (step n) d, rw (e, complete) refl, fresh-Published e free)
      | inr (old, e) ↦
          let (done, left, empty) = replaced_lookups old e free in
          (
            published,
            moved_aside old e free,
            (
              lookup-rmtree (old_step n) (step n) replaced refl ∙ done,
              lookup-rmtree (old_step n) (tmp_step n) replaced refl ∙ empty,
              lookup-rmtree_self (old_step n) replaced,
            ),
          )
    ]
