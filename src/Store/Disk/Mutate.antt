-- ===== src/Store/Disk/Mutate.antt =====
-- `Mutate`: a list is loaded, changed and saved, or no list changes.
use request_blocker.Shared.{
  false, none, ◌≡◌, ◌∙◌, refl, ap, Result-cases, arith, list_eq, nat_eq, Result, ok, err,
  Option-cases, inl, inr,
}
use request_blocker.Text.{IsInt64}
use request_blocker.Store.Scope.{Scope}
use request_blocker.Store.BlockList.{BlockList}
use request_blocker.Store.Disk.{Io, Disk, StoreError, load, save, saved, mutated, change, mutate}
use request_blocker.Store.Disk.Paths.{same_scope}
use request_blocker.Store.Disk.Save.{Unharmed, same-Unharmed, save_fails, load-save}

module _ {A : Type 0} where
  -- What a successful change leaves on the disk.
  pub record Changed (io : Io) (s : Scope) (fn : BlockList → Result StoreError (BlockList × A))
      (d : Disk) (a : A) : Type 0 where
    pub before : BlockList
    pub after : BlockList
    pub loaded : load s d ≡ ok before
    pub changed : fn before ≡ ok (after, a)
    pub done : (save io s after d).1 ≡ none
    pub disk : (mutate io s fn d).0 ≡ (save io s after d).0

  saved-fails :
      (io : Io) (s : Scope) (r : BlockList × A) (d : Disk) {e : StoreError}
      → (saved io s r d).1 ≡ err e
      → Unharmed io d (saved io s r d).0
  saved-fails io s (bl, a) d h = elim (Option-cases (save io s bl d).1) [
    | inl fine ↦ absurd (ground arith)
    | inr (x, failed) ↦ save_fails io s bl d failed
  ]

  mutated-fails :
      (io : Io) (s : Scope) (r : Result StoreError (BlockList × A)) (d : Disk) {e : StoreError}
      → (mutated io s d r).1 ≡ err e
      → Unharmed io d (mutated io s d r).0
  mutated-fails io s (err x) d h = same-Unharmed io d
  mutated-fails io s (ok r) d h = saved-fails io s r d h

  -- A change that returns an error, be it of the load, of the function or of the save, leaves all
  -- lists as they were.
  pub mutate_fails :
      (io : Io) (s : Scope) (fn : BlockList → Result StoreError (BlockList × A)) (d : Disk)
      {e : StoreError}
      → (mutate io s fn d).1 ≡ err e
      → Unharmed io d (mutate io s fn d).0
  unfolding mutate
  mutate_fails io s fn d h = mutated-fails io s (change fn (load s d)) d h

  saved_done :
      (io : Io) (s : Scope) (bl : BlockList) (b a : A) (d : Disk)
      → (saved io s (bl, b) d).1 ≡ ok a
      → (b ≡ a) × ((save io s bl d).1 ≡ none)
  saved_done io s bl b a d h = elim (Option-cases (save io s bl d).1) [
    | inl fine ↦ (ground (arith), fine)
    | inr (x, failed) ↦ absurd (ground arith)
  ]

  change_done :
      (io : Io) (s : Scope) (fn : BlockList → Result StoreError (BlockList × A)) (d : Disk) (a : A)
      (before : BlockList) (r : Result StoreError (BlockList × A))
      → load s d ≡ ok before
      → fn before ≡ r
      → (mutated io s d r).1 ≡ ok a
      → (mutate io s fn d).0 ≡ (mutated io s d r).0
      → Changed io s fn d a
  change_done io s fn d a before (err e) loaded changed h same = absurd (ground arith)
  change_done io s fn d a before (ok (after, b)) loaded changed h same =
      let (is_a, fine) = saved_done io s after b a d h in
      record {
        before = before;
        after = after;
        loaded = loaded;
        changed = changed ∙ ap (λ c. ok (after, c)) is_a;
        done = fine;
        disk = same;
      }

  load_done :
      (io : Io) (s : Scope) (fn : BlockList → Result StoreError (BlockList × A)) (d : Disk) (a : A)
      (l : Result StoreError BlockList)
      → load s d ≡ l
      → (mutated io s d (change fn l)).1 ≡ ok a
      → (mutate io s fn d).0 ≡ (mutated io s d (change fn l)).0
      → Changed io s fn d a
  load_done io s fn d a (err e) loaded h same = absurd (ground arith)
  load_done io s fn d a (ok before) loaded h same =
      change_done io s fn d a before (fn before) loaded refl h same

  pub mutate_done :
      (io : Io) (s : Scope) (fn : BlockList → Result StoreError (BlockList × A)) (d : Disk) (a : A)
      → (mutate io s fn d).1 ≡ ok a
      → Changed io s fn d a
  unfolding mutate
  mutate_done io s fn d a h = load_done io s fn d a (load s d) refl h refl

  -- Whether it succeeds or fails, a change of one scope leaves the list of every other scope as
  -- it was.
  pub load-mutate_other :
      (io : Io) (s t : Scope) (fn : BlockList → Result StoreError (BlockList × A)) (d : Disk)
      → IsInt64 s.uid
      → IsInt64 t.uid
      → same_scope s t ≡ false
      → load t (mutate io s fn d).0 ≡ load t d
  load-mutate_other io s t fn d hs ht apart = elim (Result-cases (mutate io s fn d).1) [
    | inl (e, failed) ↦ (mutate_fails io s fn d failed).lists t
    | inr (a, fine) ↦
        let c = mutate_done io s fn d a fine in
        rw c.disk (load-save io s t c.after d hs ht c.done ∙ ground arith)
  ]
