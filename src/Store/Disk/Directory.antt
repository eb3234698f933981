-- ===== src/Store/Disk/Directory.antt =====
-- What `save_in` leaves in a directory.
use request_blocker.Shared.{
  Bool-cases, inl, inr, ◌⊎◌, refl, ap, ◌||◌, not, is_some, false, none, some, ◌≡◌, arith, list_eq,
  nat_eq, list_beq_iff, lookup, insert, delete, lookup-insert, insert-insert, delete_absent,
  delete-insert_absent,
}
use request_blocker.Store.Scope.{Scope}
use request_blocker.Store.Disk.{
  Io, Content, file, malformed, Directory, StoreError, tmp_name, removed_tmp, file_name, save_in,
  is_directory,
}
use request_blocker.Store.Disk.Paths.{tmp_name-ne-file_name}

module _ (io : Io) (s : Scope) (content : Content) (dir : Directory) where
  abbrev created : Directory
  created = insert (tmp_name io) (file malformed) dir

  abbrev written : Directory
  written = insert (tmp_name io) (file content) created

  -- The new file is gone, and the directory is what it was.
  delete-created : lookup (tmp_name io) dir ≡ none → delete (tmp_name io) created ≡ dir
  delete-created = delete-insert_absent (tmp_name io) (file malformed) dir

  delete-written : lookup (tmp_name io) dir ≡ none → delete (tmp_name io) written ≡ dir
  delete-written fresh =
      rw (insert-insert (tmp_name io) (file malformed) (file content) dir)
        (delete-insert_absent (tmp_name io) (file content) dir fresh)

  delete-renamed :
      lookup (tmp_name io) dir ≡ none
      → delete (tmp_name io) (insert (file_name s) (file content) (delete (tmp_name io) written))
        ≡ insert (file_name s) (file content) dir
  delete-renamed fresh = rw (delete-written fresh) (
      delete_absent (tmp_name io) (insert (file_name s) (file content) dir) (
        ground (
          arith,
          lookup-insert (tmp_name io) (file_name s) (file content) dir,
          list_beq_iff (tmp_name io) (file_name s),
          list_beq_iff (file_name s) (tmp_name io),
          tmp_name-ne-file_name io s,
        )))

  lookup-written : lookup (file_name s) written ≡ lookup (file_name s) dir
  lookup-written = ground (
    arith,
    lookup-insert (file_name s) (tmp_name io) (file content) created,
    lookup-insert (file_name s) (tmp_name io) (file malformed) dir,
    tmp_name-ne-file_name io s,
  )

  -- What a failed save leaves in the directory: what was there, or that and a temporary file.
  abbrev pub Left : Directory → Type 0
  Left dir' =
      (dir' ≡ dir)
      ⊎ ((io.done_remove ≡ false) × (c : Content) × (dir' ≡ insert (tmp_name io) (file c) dir))

  created-Left : lookup (tmp_name io) dir ≡ none → Left (removed_tmp io created)
  unfolding removed_tmp
  created-Left fresh = elim (Bool-cases io.done_remove) [
    | inl gone ↦ inl (rw (gone, removed_tmp) (delete-created fresh))
    | inr stays ↦ inr (stays, malformed, rw (stays, removed_tmp) refl)
  ]

  written-Left : lookup (tmp_name io) dir ≡ none → Left (removed_tmp io written)
  unfolding removed_tmp
  written-Left fresh = elim (Bool-cases io.done_remove) [
    | inl gone ↦ inl (rw (gone, removed_tmp) (delete-written fresh))
    | inr stays ↦ inr (
      stays,
      content,
      rw (stays, removed_tmp) (insert-insert (tmp_name io) (file malformed) (file content) dir),
    )
  ]

  removed_tmp-renamed :
      lookup (tmp_name io) dir ≡ none
      → removed_tmp io (insert (file_name s) (file content) (delete (tmp_name io) written))
        ≡ insert (file_name s) (file content) dir
  unfolding removed_tmp
  removed_tmp-renamed fresh = elim (Bool-cases io.done_remove) [
    | inl gone ↦ rw gone (delete-renamed fresh)
    | inr stays ↦ rw stays (ap (insert (file_name s) (file content)) (delete-written fresh))
  ]

  pub save_in-fails :
      {e : StoreError} → (save_in io s content dir).1 ≡ some e → Left (save_in io s content dir).0
  unfolding save_in
  save_in-fails h = elim (Bool-cases (not io.done_create || is_some (lookup (tmp_name io) dir))) [
    | inl none_made ↦ rw none_made (inl refl)
    | inr made ↦
        let fresh : lookup (tmp_name io) dir ≡ none = ground (arith, made) in
        rw made (elim (Bool-cases (not io.done_write)) [
          | inl a ↦ rw a (created-Left fresh)
          | inr a ↦ rw a (elim (Bool-cases (not io.done_chmod)) [
            | inl b ↦ rw b (written-Left fresh)
            | inr b ↦ rw b (elim (Bool-cases (not io.done_close)) [
              | inl c ↦ rw c (written-Left fresh)
              | inr c ↦
                  rw c
                    (elim (Bool-cases
                      (not io.done_rename || is_directory (lookup (file_name s) written))) [
                        | inl d ↦ rw d (written-Left fresh)
                        | inr d ↦ absurd (ground (arith, h, made, a, b, c, d))
                      ])
            ])
          ])
        ])
  ]

  pub save_in-done :
      (save_in io s content dir).1 ≡ none
      → ((save_in io s content dir).0 ≡ insert (file_name s) (file content) dir)
        × (is_directory (lookup (file_name s) dir) ≡ false)
  unfolding save_in
  save_in-done h = ground (arith, removed_tmp-renamed, lookup-written)
