-- ===== src/Store/Disk/Tests.antt =====
-- Tests of the store's files.
use request_blocker.Shared.{
  ◌≡◌, refl, true, false, none, some, [], ◌∷◌, arith, list_eq, nat_eq, list_beq, ok, lookup, insert,
  delete, sort, if◌then◌else◌,
}
use request_blocker.Text.{codes, pos, int_eq, int_ord, itoa}
use request_blocker.Store.Scope.{Scope, user_scope, global_scope}
use request_blocker.Store.BlockList.{BlockList}
use request_blocker.Store.Disk.{
  removed_tmp, Io, Disk, rename, folder, file_name, set_folder, tmp_name, save_in, save, load,
  list_user_uids, entry_uids,
}
use request_blocker.Store.Disk.Paths.{same_scope}
use request_blocker.Store.Disk.Save.{canonical, Unharmed, save_fails, load-save}

abbrev fine : Io
fine = record {
  suffix = codes "1";
  done_create = true;
  done_write = true;
  done_chmod = true;
  done_close = true;
  done_rename = true;
  done_remove = true;
}

abbrev no_rename : Io
no_rename = record fine { done_rename = false; done_remove = false }

abbrev empty_disk : Disk
empty_disk = record { root = []; users = some [] }

abbrev alice : Scope
alice = user_scope (pos 1000)

abbrev one_domain : BlockList
one_domain = record { domains = codes "a.com" ∷ []; ips = [] }

save_succeeds : (save fine alice one_domain empty_disk).1 ≡ none
unfolding save folder file_name set_folder tmp_name save_in removed_tmp lookup insert delete itoa
    list_beq
save_succeeds = refl

save_stops : (save no_rename alice one_domain empty_disk).1 ≡ some (rename alice)
unfolding save folder file_name set_folder tmp_name save_in removed_tmp lookup insert delete itoa
    list_beq
save_stops = refl

load-save_example : load global_scope (save fine alice one_domain empty_disk).0 ≡ (
    if same_scope alice global_scope
    then ok (canonical one_domain)
    else load global_scope empty_disk)
load-save_example =
    load-save fine alice global_scope one_domain empty_disk (omega arith) (omega arith)
      save_succeeds

save_fails_example : Unharmed no_rename empty_disk (save no_rename alice one_domain empty_disk).0
save_fails_example = save_fails no_rename alice one_domain empty_disk save_stops

none_listed : list_user_uids true empty_disk ≡ ok []
unfolding list_user_uids entry_uids sort
none_listed = refl
