-- ===== src/Backup/Pruning.antt =====
-- Which backups pruning leaves.
use spark_db.Prelude.{
  ℕ, zero, suc, ◌≤◌, String, ◌≡◌, refl, ◌∙◌, Bool, false, ◌||◌, List, [], ◌∷◌, length, take, drop,
  leb, leb→le, arith, All, NewestFirst-take, newest_first-NewestFirst, none, Option-cases,
  Bool-cases, inl, inr, str_eq, eq_iff, if◌then◌else◌,
}
use spark_db.Disk.{Disk, stat}
use spark_db.Disk.Files.{stat-remove_file}
use spark_db.Encryption.Cipher.{Aead}
use spark_db.Database.Manager.{Driver}
use spark_db.Backup.{
  BackupInfo, BackupManager, found_backups, list_backups, delete_backup, delete_all,
  prune_old_backups,
}

-- one of the backups has this path
abbrev pub named : String → List BackupInfo → Bool
named path [] = false
named path (b ∷ bs) = str_eq b.path path || named path bs

module _ (s : Driver) (a : Aead) (join : String → String → String) (bm : BackupManager) where
  stat-delete_backup :
      (path other : String) (d : Disk)
      → stat other (delete_backup s a join bm path d).1
        ≡ (if str_eq path other then none else stat other d)
  unfolding delete_backup
  stat-delete_backup path other d = elim (Option-cases (stat path d)) [
    | inl absent ↦ rw (absent) (elim (Bool-cases (str_eq path other)) [
      | inl e ↦ rw (e) (let raw = absent in rw ((eq_iff path other).0 e) at raw)
      | inr e ↦ rw (e) refl
    ])
    | inr (f, present) ↦ rw (present) (stat-remove_file path other d)
  ]

  stat-delete_all :
      (bs : List BackupInfo) (other : String) (d : Disk)
      → stat other (delete_all s a join bm bs d) ≡ (if named other bs then none else stat other d)
  unfolding delete_all
  stat-delete_all [] other d = refl
  stat-delete_all (b ∷ bs) other d =
      stat-delete_all bs other (delete_backup s a join bm b.path d).1
      ∙ ground (arith, stat-delete_backup b.path other d)

  drop_all : (n : ℕ) (bs : List BackupInfo) → length bs ≤ n → drop n bs ≡ []
  drop_all zero [] h = refl
  drop_all zero (b ∷ bs) h = absurd (omega arith)
  drop_all (suc n) [] h = refl
  drop_all (suc n) (b ∷ bs) h = drop_all n bs (omega arith)

  -- Pruning removes exactly the backups after the first `keep_count` of the list, and no backup that
  -- it removes is newer than one that it keeps.
  pub prune_old_backups_lem :
      (keep_count : ℕ) (names : List String) (d : Disk)
      → let all = list_backups s a join bm names d in
        All
          (λ kept. All (λ old. old.created_at ≤ kept.created_at) (drop keep_count all))
          (take keep_count all)
        × ((path : String)
            → stat path (prune_old_backups s a join bm keep_count names d)
              ≡ (if named path (drop keep_count all) then none else stat path d))
  unfolding prune_old_backups list_backups
  prune_old_backups_lem keep_count names d =
      let all = list_backups s a join bm names d in
      (
        NewestFirst-take (λ b. b.created_at) keep_count all
            (newest_first-NewestFirst (λ b. b.created_at) (found_backups s a join bm names d)),
        λ path. elim (Bool-cases (leb (length all) keep_count)) [
          | inl e ↦ rw (e, drop_all keep_count all (leb→le (length all) keep_count e)) refl
          | inr e ↦ rw (e) (stat-delete_all (drop keep_count all) path d)
        ],
      )
