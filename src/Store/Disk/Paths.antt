-- ===== src/Store/Disk/Paths.antt =====
-- The names of the files: distinct scopes have distinct files, and no file is a temporary one.
use request_blocker.Shared.{
  Bool, false, ◌&&◌, not, ◌∷◌, ◌++◌, ◌≡◌, ◌≢◌, ◌∙◌, sym, ap, arith, list_eq, nat_eq, ◌==◌,
  list_beq_iff, if◌then◌else◌,
}
use request_blocker.Text.{
  Text, codes, ℤ, int_eq, int_beq_iff, IsInt64, itoa, itoa-no_dot, itoa-injective, trim_suffix,
  trim_suffix-append,
}
use request_blocker.Store.Scope.{Scope}
use request_blocker.Store.Disk.{Io, tmp_name, file_name, json_suffix}

abbrev pub same_scope : Scope → Scope → Bool
same_scope s t = if s.global then t.global else not t.global && s.uid == t.uid

global_name : (t : Text) → codes "global.json" ≢ b'.' ∷ t
global_name t e = cc

pub tmp_name-ne-file_name : (io : Io) (s : Scope) → (tmp_name io == file_name s) ≡ false
unfolding tmp_name file_name
tmp_name-ne-file_name io s = ground (
  arith,
  list_beq_iff (codes ".tmp-" ++ io.suffix) (file_name s),
  itoa-no_dot s.uid (codes ".json") (codes "tmp-" ++ io.suffix),
)

user_file-injective :
    (a b : ℤ) → IsInt64 a → IsInt64 b → itoa a ++ json_suffix ≡ itoa b ++ json_suffix → a ≡ b
user_file-injective a b ha hb e = itoa-injective a b ha hb (
    sym (trim_suffix-append (itoa a) json_suffix)
    ∙ ap (λ t. trim_suffix t json_suffix) e
    ∙ trim_suffix-append (itoa b) json_suffix)

-- Among scopes of one folder the names tell the scopes apart.
pub file_name-same :
    (s t : Scope)
    → IsInt64 s.uid
    → IsInt64 t.uid
    → s.global ≡ t.global
    → (file_name s == file_name t) ≡ same_scope s t
unfolding file_name
file_name-same s t hs ht e = ground (
  arith,
  list_beq_iff (file_name s) (file_name t),
  int_beq_iff s.uid t.uid,
  user_file-injective s.uid t.uid hs ht,
)
