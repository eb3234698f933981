-- ===== src/Daemon/Engine/Interleaved/Applied.antt =====
-- What a locked phase applies when changes of the store come in its middle.
use request_blocker.Shared.{
  ℕ, ◌≡◌, ◌∙◌, refl, sym, ap, subst, ◌||◌, ◌⊎◌, inl, inr, true, none, List, [], ◌∷◌, Bool,
  Bool-cases, Map, IsMap, lookup, lookup-insert, insert, insert-IsMap, contains, contains-nil,
  contains-cons, ok, arith, ◌==◌,
}
use mathlib.Core.List.{Memᴰ}
use mathlib.Core.List.Memᴰ.{head, tail}
use request_blocker.Text.{int_eq, Text, ℤ, int_beq_iff, IsInt64}
use request_blocker.Store.Scope.{Scope, global_scope, user_scope}
use request_blocker.Store.BlockList
use request_blocker.Store.BlockList.{BlockList}
use request_blocker.Store.Disk.{Disk, load, list_user_uids}
use request_blocker.Store.Disk.Users.{stored, stored_unlisted}
use request_blocker.Backend.State.{Family}
use request_blocker.Backend.Interface.{Backend}
use request_blocker.Daemon.Engine.Tables.{World}
use request_blocker.Daemon.Engine.Defs.{Engine, build_and_apply}
use request_blocker.Daemon.Engine.Desired.{blocks}
use request_blocker.Daemon.Engine.Loaded.{or_empty, stored-load}
use request_blocker.Daemon.Engine.Entries.Firewall.{enforced}
use request_blocker.Daemon.Engine.Rebuild.{
  IsSound, build_and_apply-disk, build_and_apply-IsSound, build_and_apply_exact,
}
use request_blocker.Daemon.Engine.Interleaved.{
  Holder, nobody, locked, read_global, reading, System, changed, Step, adding, removing, lock_first,
  lock_second, load_global, list_uids, load_user, unlock, applying, quiet, Reaches, here, after,
}

module _ (be : Backend) (ttl : ℕ) where
  -- A list was stored at one of the times.
  abbrev Once : Scope → BlockList → List Disk → Type 0
  Once t bl since = (d : Disk) × Memᴰ d since × (bl ≡ stored t d)

  -- What a phase has read was stored at some time since it took the mutex; what it has not was not.
  abbrev Read : Holder → List Disk → Type 0
  Read nobody since = Unit
  Read locked since = Unit
  Read (read_global bl) since = Once global_scope bl since
  Read (reading bl us m) since =
      Once global_scope bl since
      × IsMap m
      × ((u : ℤ)
          → IsInt64 u
          → (contains us u ≡ true) ⊎ Once (user_scope u) (or_empty (lookup u m)) since)

  record Kept (s : System be ttl) : Type 0 where
    sound : IsSound be ttl s.engine
    current : Memᴰ s.engine.disk s.since
    read : Read s.holder s.since

  Once-later :
      (t : Scope) (bl : BlockList) (since : List Disk) (d : Disk)
      → Once t bl since
      → Once t bl (d ∷ since)
  Once-later t bl since d (d', there, is) = (d', tail there, is)

  Read-later : (h : Holder) (since : List Disk) (d : Disk) → Read h since → Read h (d ∷ since)
  Read-later nobody since d r = tt
  Read-later locked since d r = tt
  Read-later (read_global bl) since d r = Once-later global_scope bl since d r
  Read-later (reading bl us m) since d (global, is_map, own) = (
    Once-later global_scope bl since d global,
    is_map,
    λ u h. elim (own u h) [
      | inl left ↦ inl left
      | inr once ↦ inr (Once-later (user_scope u) (or_empty (lookup u m)) since d once)
    ],
  )

  changed-Kept : (d : Disk) (s : System be ttl) → Kept s → Kept (changed be ttl d s)
  changed-Kept d s k = record {
    sound = k.sound;
    current = head refl;
    read = Read-later s.holder s.since d k.read;
  }

  -- A uid that is not listed has no list at that time.
  listed_uids :
      (s : System be ttl) (readable : Bool) (uids : List ℤ) (u : ℤ)
      → Kept s
      → IsInt64 u
      → list_user_uids readable s.engine.disk ≡ ok uids
      → (contains uids u ≡ true) ⊎ Once (user_scope u) BlockList.empty s.since
  listed_uids s readable uids u k h listed = elim (Bool-cases (contains uids u)) [
    | inl there ↦ inl there
    | inr missing ↦ inr (
      s.engine.disk,
      k.current,
      sym (stored_unlisted s.engine.disk readable uids u h listed missing),
    )
  ]

  loaded_user :
      (s : System be ttl) (own : BlockList) (u v : ℤ) (us : List ℤ) (m : Map ℤ BlockList)
      → Kept s
      → load (user_scope u) s.engine.disk ≡ ok own
      → (contains (u ∷ us) v ≡ true) ⊎ Once (user_scope v) (or_empty (lookup v m)) s.since
      → (contains us v ≡ true) ⊎ Once (user_scope v) (or_empty (lookup v (insert u own m))) s.since
  loaded_user s own u v us m k loaded before = elim (Bool-cases (u == v)) [
    | inl same ↦
        let is : u ≡ v = (int_beq_iff u v).0 same in
        inr (
          s.engine.disk,
          k.current,
          ground (arith, lookup-insert v u own m, same)
              ∙ sym (stored-load (user_scope u) s.engine.disk own loaded)
              ∙ ap (λ w. stored (user_scope w) s.engine.disk) is,
        )
    | inr other ↦ elim before [
      | inl listed ↦ inl (ground (arith, listed, contains-cons u us v, other))
      | inr (d, there, is) ↦
          let kept : lookup v (insert u own m) ≡ lookup v m =
            ground (arith, lookup-insert v u own m, other) in
          inr (d, there, ap or_empty kept ∙ is)
    ]
  ]

  Step-Kept : {s t : System be ttl} → Step be ttl s t → Kept s → Kept t
  Step-Kept {s} (adding io t domains ips) k = changed-Kept _ s k
  Step-Kept {s} (removing io t domains ips) k = changed-Kept _ s k
  Step-Kept (lock_first free) k = record { sound = k.sound; current = head refl; read = tt }
  Step-Kept (lock_second w o free) k = record { sound = k.sound; current = head refl; read = tt }
  Step-Kept {s} (load_global bl h loaded) k = record {
    sound = k.sound;
    current = k.current;
    read = (s.engine.disk, k.current, sym (stored-load global_scope s.engine.disk bl loaded));
  }
  Step-Kept {s} (list_uids bl readable uids h listed) k = record {
    sound = k.sound;
    current = k.current;
    read = (
      subst (λ x. Read x s.since) h k.read,
      tt,
      λ u h64. elim (listed_uids s readable uids u k h64 listed) [
        | inl there ↦ inl there
        | inr once ↦
            inr (subst (λ l. Once (user_scope u) (or_empty l) s.since) (sym (lookup_nil u)) once)
      ],
    );
  }
    where
      lookup_nil : (u : ℤ) → lookup {V = BlockList} u [] ≡ none
      lookup_nil u = unfold lookup in refl
  Step-Kept {s} (load_user bl own u us m h loaded) k =
      let (global, is_map, rest) = subst (λ x. Read x s.since) h k.read in
      record {
        sound = k.sound;
        current = k.current;
        read = (
          global,
          insert-IsMap u own m is_map,
          λ v h64. loaded_user s own u v us m k loaded (rest v h64),
        );
      }
  Step-Kept unlock k = record { sound = k.sound; current = k.current; read = tt }
  Step-Kept {s} (applying w bl m h) k = record {
    sound = build_and_apply-IsSound be ttl w bl m s.engine k.sound;
    current =
        subst (λ d. Memᴰ d s.since) (sym (build_and_apply-disk be ttl w bl m s.engine)) k.current;
    read = tt;
  }

  Reaches-Kept : {a b : System be ttl} → Reaches be ttl a b → Kept a → Kept b
  Reaches-Kept here k = k
  Reaches-Kept (after path step) k = Step-Kept step (Reaches-Kept path k)

  -- However the steps of concurrent requests and refreshes mix, changes of the store in the middle
  -- of a locked phase of `Rebuild` included, whenever a phase that has read the store applies it
  -- with success, the firewall then drops for every uid of 64 bits exactly what a global list and
  -- an own list of the uid block that were each stored at some time since the phase took the
  -- mutex.
  pub applying_exact :
      (e : Engine be ttl) (s : System be ttl) (w : World) (bl : BlockList) (m : Map ℤ BlockList)
      (u : ℤ) (f : Family) (x : Text)
      → Reaches be ttl (quiet be ttl e) s
      → IsSound be ttl e
      → s.holder ≡ reading bl [] m
      → (build_and_apply be ttl w bl m s.engine).1 ≡ ok tt
      → IsInt64 u
      → (d : Disk) × (d' : Disk) × Memᴰ d s.since
        × Memᴰ d' s.since
        × (be.drops (build_and_apply be ttl w bl m s.engine).0.live u f x ≡ (
            blocks (build_and_apply be ttl w bl m s.engine).0.cache (stored global_scope d) f x
            || blocks
                (build_and_apply be ttl w bl m s.engine).0.cache
                (stored (user_scope u) d')
                f
                x))
  applying_exact e s w bl m u f x path sound h done h64 =
      let k = Reaches-Kept path (record { sound = sound; current = head refl; read = tt }) in
      let ((d, there, is), is_map, own) = subst (λ r. Read r s.since) h k.read in
      let exact = build_and_apply_exact be ttl w bl m s.engine u f x is_map k.sound done in
      elim (own u h64) [
        | inl left ↦ absurd (ground (arith, left, contains-nil u))
        | inr (d', there', is') ↦ (d, d', there, there', exact ∙ rw (is, is') refl)
      ]

  -- Where no request has changed the store since the phase took the mutex, these are the lists
  -- that are stored when it ends.
  pub applying_settled :
      (e : Engine be ttl) (s : System be ttl) (w : World) (bl : BlockList) (m : Map ℤ BlockList)
      (u : ℤ) (f : Family) (x : Text)
      → Reaches be ttl (quiet be ttl e) s
      → IsSound be ttl e
      → s.holder ≡ reading bl [] m
      → s.since ≡ s.engine.disk ∷ []
      → (build_and_apply be ttl w bl m s.engine).1 ≡ ok tt
      → IsInt64 u
      → be.drops (build_and_apply be ttl w bl m s.engine).0.live u f x
        ≡ enforced be ttl (build_and_apply be ttl w bl m s.engine).0 u f x
  applying_settled e s w bl m u f x path sound h settled done h64 =
      let (d, d', there, there', exact) = applying_exact e s w bl m u f x path sound h done h64 in
      let now = build_and_apply-disk be ttl w bl m s.engine in
      exact ∙ rw (now, only d there, only d' there') refl
    where
      only : (d : Disk) → Memᴰ d s.since → d ≡ s.engine.disk
      only d there = one d (subst (Memᴰ d) settled there)
        where
          one : (d : Disk) → Memᴰ d (s.engine.disk ∷ []) → d ≡ s.engine.disk
          one d (head is) = is
          one d (tail none_left) = elim none_left [ ]
