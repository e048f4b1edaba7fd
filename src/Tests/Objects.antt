-- ===== src/Tests/Objects.antt =====
-- Runs of the in-memory object backend (object/backend/memory/backend.go), and instances of its
-- theorems.
use omnistorage_core.Base.{
  ℕ, ◌≡◌, refl, false, none, some, List, [], ◌∷◌, if◌then◌else◌, ◌==◌, list_eq, nat_eq, ok, err,
  pos,
}
use omnistorage_core.Base.Text.{Text, bytes, has_prefix, text_lt}
use omnistorage_core.Base.Dict
use omnistorage_core.Base.Dict.{NodupKeys}
use omnistorage_core.Base.Sort
use omnistorage_core.Base.Sort.{Ascending}
use omnistorage_core.Object.{Error}
use omnistorage_core.Object.FilePath
use omnistorage_core.Object.FilePath.{validate_path, normalize_path, elements, split, clean}
use omnistorage_core.Object.FilePath.Traversal.{any_dot_dot, validate_path-no_dot_dot}
use omnistorage_core.Object.Memory
use omnistorage_core.Object.Memory.{Object, Backend, Writer, Reader, init, select}
use omnistorage_core.Object.Memory.Contents
use omnistorage_core.Object.Memory.Contents.{write_all, concat, read-write, read_all, read_all_lem}
use omnistorage_core.Object.Memory.Transfers.{at}

program : Unit {0}
unfolding FilePath.split FilePath.join FilePath.contains_text FilePath.trim_slash
    FilePath.is_dot_dot FilePath.is_idle FilePath.clean_part FilePath.clean_parts FilePath.clean
    FilePath.validate_path FilePath.normalize_path Memory.check Memory.new_writer Memory.write
    Memory.close_writer Memory.select Memory.new_reader Memory.read Memory.exists Memory.delete
    Memory.is_listed Memory.list Memory.stat Memory.make_dirs Memory.mkdir Memory.any_under
    Memory.rmdir Memory.transfer Memory.copy Memory.move Memory.size Memory.count Contents.write_all
    Contents.read_all Dict.lookup Dict.insert Dict.erase Dict.retain Dict.keys Sort.sort
    Sort.insert_sorted text_lt has_prefix list_eq nat_eq
program = tt

cleaned : clean (bytes "/a/./b/../../../c//d/") ≡ bytes "/c/d"
unfolding program
cleaned = refl

climbing : validate_path (bytes "a/../../b") ≡ err Error.invalid_path
unfolding program
climbing = refl

abbrev p : Text
p = bytes "a/b"

-- another spelling of it
abbrev q : Text
q = bytes "/a//b"

abbrev file : Object
file = record { content = 1 ∷ 2 ∷ 3 ∷ []; content_type = []; mod_time = 5; is_dir = false }

abbrev folder : Object
folder = Memory.directory 4

abbrev b : Backend
b = record init { objects = (bytes "a", folder) ∷ (p, file) ∷ (bytes "d", folder) ∷ [] }

abbrev w : Writer
w = record { path = p; buffer = []; content_type = []; is_closed = false }

opened : Memory.new_writer none q [] b ≡ ok w
unfolding program
opened = refl

valid_p : validate_path p ≡ ok tt
unfolding program
valid_p = refl

valid_q : validate_path q ≡ ok tt
unfolding program
valid_q = refl

valid_d : validate_path (bytes "d/e") ≡ ok tt
unfolding program
valid_d = refl

same : normalize_path q ≡ normalize_path p
unfolding program
same = refl

abbrev chunks : List (List ℕ)
chunks = (1 ∷ 2 ∷ []) ∷ [] ∷ (3 ∷ []) ∷ []

read-write_example :
    ((Memory.close_writer 9 (write_all chunks w) b).2 ≡ ok tt)
    × (Memory.new_reader none p (pos 1) (pos 5) (Memory.close_writer 9 (write_all chunks w) b).1 ≡ (
        if normalize_path p == normalize_path q
        then ok (record { rest = select (pos 1) (pos 5) (concat chunks); is_closed = false })
        else Memory.new_reader none p (pos 1) (pos 5) b))
read-write_example = read-write 9 q p [] (pos 1) (pos 5) chunks b opened valid_p

abbrev r : Reader
r = record { rest = 1 ∷ 2 ∷ 3 ∷ []; is_closed = false }

validate_path-no_dot_dot_example : any_dot_dot (elements q) ≡ false
validate_path-no_dot_dot_example = validate_path-no_dot_dot q valid_q

copied : (Memory.copy none 9 p (bytes "d/e") b).1 ≡ ok tt
unfolding program
copied = refl

moved : (Memory.move none 9 p (bytes "d/e") b).1 ≡ ok tt
unfolding program
moved = refl

stored : at p b ≡ some file
unfolding program
stored = refl

b-NodupKeys : NodupKeys b.objects
unfolding program
b-NodupKeys = (refl, (refl, (refl, tt)))
