-- ===== src/Files/Tests.antt =====
-- Files, links and tars as tests/test_fileops.py has them, and the theorems about them there.
use prax_sandbox.Base.{arith, ℕ, ◌≡◌, ◌≤◌, refl, true, List, [], ◌∷◌, none, some, take, contains}
use prax_sandbox.Text.{Text, codes, split}
use prax_sandbox.Text
use prax_sandbox.Files.Realpath
use prax_sandbox.Files.Disk.{FilePath, Disk, file, directory, link, node_at, entry_at, path_beq}
use prax_sandbox.Files.Realpath.{name, realpath, parts_of}
use prax_sandbox.Files.Kernel
use prax_sandbox.Files.Kernel.{kernel, names_of}
use prax_sandbox.Files.System
use prax_sandbox.Files.Confined
use prax_sandbox.Files.Confined.{
  is_within, Result, ok, err, escape, too_big, os_error, Member, file_member, dir_member,
  other_member, confine, read_file, write_file, push_tar,
}
use prax_sandbox.Files.Growth.{Grows, is_under, Keeps}
use prax_sandbox.Files.Growth.Calls.{IsRoot}
use prax_sandbox.Files.Contained.Operations.{push_tar-Grows}
use prax_sandbox.Files.Users.{base_of, resolve_user_root, IsUserRoot, resolve_user_root-IsUserRoot}
use prax_sandbox.Files.Contained.Writes.{IsWritten, write_file-IsWritten}
use prax_sandbox.Files.Contained.Reads.{read_file-IsWithin}

abbrev w : Text
w = codes "w"

abbrev a : Text
a = codes "a"

abbrev out : Text
out = codes "out"

abbrev loop : Text
loop = codes "loop"

abbrev etc : Text
etc = codes "etc"

abbrev passwd : Text
passwd = codes "passwd"

-- `/w` with the file `a`, a link to `/etc` and a link to itself.
abbrev disk : Disk
disk =
    (w ∷ [], directory)
    ∷ (a ∷ w ∷ [], file (codes "hello"))
    ∷ (out ∷ w ∷ [], link (codes "/etc"))
    ∷ (loop ∷ w ∷ [], link (codes "loop"))
    ∷ (etc ∷ [], directory)
    ∷ (passwd ∷ etc ∷ [], file (codes "secret"))
    ∷ []

abbrev root : FilePath
root = w ∷ []

files_run : Unit {0}
unfolding Text.text_beq Text.starts_with Text.split path_beq node_at entry_at Realpath.find_seen
    Realpath.name_step Realpath.walk Realpath.resolve realpath Kernel.look_up Kernel.find_names
    kernel System.find_place System.stat System.make_entry System.mkdir System.make_last
    System.make_dirs System.written System.write_entry System.open_write Confined.is_below confine
    Confined.names_below Confined.write_confined write_file read_file Confined.extract_member
    Confined.extract_all push_tar contains Text.lstrip resolve_user_root
files_run = tt

confine_tests :
    (confine disk root (codes "a") ≡ some (a ∷ w ∷ []))
    × (confine disk root (codes "x/../a") ≡ some (a ∷ w ∷ []))
    × (confine disk root (codes "out/passwd") ≡ none)
    × (confine disk root (codes "../etc") ≡ none)
    × (confine disk root (codes "/w/a") ≡ none)
    × (confine disk root (codes "loop") ≡ some (loop ∷ w ∷ []))
unfolding files_run
confine_tests = (refl, refl, refl, refl, refl, refl)

read_tests :
    (read_file disk root (codes "a") 10 ≡ ok (codes "hello"))
    × (read_file disk root (codes "a") 3 ≡ err too_big)
    × (read_file disk root (codes "out/passwd") 10 ≡ err escape)
unfolding files_run
read_tests = (refl, refl, refl)

read_file-IsWithin_example :
    (p : FilePath) × ((is_under root p ≡ true)
      × (node_at disk p ≡ some (file (codes "hello")))
      × (5 ≤ 10))
read_file-IsWithin_example =
    read_file-IsWithin disk root (codes "a") 10 (codes "hello") read_tests.0

root-IsRoot : IsRoot disk root
unfolding files_run
root-IsRoot = record { is_dir = refl; left = 40; found = refl }

abbrev tar : List Member
tar =
    record { kind = dir_member; member_name = codes "d"; contents = [] }
    ∷ record { kind = file_member; member_name = codes "d/f"; contents = codes "new" }
    ∷ record { kind = file_member; member_name = codes "out/passwd"; contents = codes "bad" }
    ∷ record { kind = file_member; member_name = codes "late"; contents = codes "bad" }
    ∷ []

push_tests :
    ((push_tar disk root tar []).1 ≡ err escape)
    × (node_at (push_tar disk root tar []).0 (codes "f" ∷ codes "d" ∷ root)
        ≡ some (file (codes "new")))
    × (node_at (push_tar disk root tar []).0 (codes "late" ∷ root) ≡ none)
    × ((push_tar disk root (take 2 tar) (codes "sub")).1 ≡ ok 1)
    × ((write_file disk root (codes "loop") (codes "x")).1 ≡ err os_error)
    × ((write_file disk root (codes "n/m") (codes "xyz")).1 ≡ ok 3)
unfolding files_run
push_tests = (refl, refl, refl, refl, refl, refl)

push_tar-Grows_example : Grows root disk (push_tar disk root tar []).0
push_tar-Grows_example = push_tar-Grows root disk tar [] root-IsRoot

cwd-Keeps : Keeps disk []
cwd-Keeps d' links = tt

user_tests :
    (base_of disk [] (codes "/w") ≡ some root)
    × ((resolve_user_root disk [] (codes "/w") (codes "+alice")).1 ≡ ok (codes "alice" ∷ root))
    × ((resolve_user_root disk [] (codes "/w") (codes "alice")).1 ≡ ok (codes "alice" ∷ root))
    × ((resolve_user_root disk [] (codes "/w") (codes "out")).1 ≡ err escape)
    × ((resolve_user_root disk [] (codes "/w") (codes "..")).1 ≡ err escape)
unfolding files_run
user_tests = (refl, refl, refl, refl, refl)

resolve_user_root-IsUserRoot_example :
    IsUserRoot root disk (resolve_user_root disk [] (codes "/w") (codes "out"))
resolve_user_root-IsUserRoot_example =
    resolve_user_root-IsUserRoot disk [] root (codes "/w") (codes "out") cwd-Keeps user_tests.0
      root-IsRoot

write_tests :
    (confine disk root (codes "n/m") ≡ some (codes "m" ∷ codes "n" ∷ root))
    × ((write_file disk root (codes "n/m") (codes "xyz")).1 ≡ ok 3)
unfolding files_run
write_tests = (refl, refl)

write_file-IsWritten_example :
    (◌≡◌ {A = ℕ} 3 3)
    × IsWritten
        (codes "m" ∷ codes "n" ∷ root)
        (codes "xyz")
        (write_file disk root (codes "n/m") (codes "xyz")).0
write_file-IsWritten_example =
    write_file-IsWritten root disk (codes "n/m") (codes "xyz") (codes "m" ∷ codes "n" ∷ root) 3
      root-IsRoot write_tests.0 (omega arith) write_tests.1
