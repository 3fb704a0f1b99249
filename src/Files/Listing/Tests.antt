-- ===== src/Files/Listing/Tests.antt =====
-- Listings, searches and tars after tests/test_files_api.py, and the theorems about them there.
use prax_sandbox.Base.{
  ◌≡◌, ◌≤◌, refl, max, true, false, Bool, List, [], ◌∷◌, some, contains, Elem, length, All,
  if◌then◌else◌, ◌==◌, nat_eq,
}
use prax_sandbox.Text
use prax_sandbox.Text.{Text, codes, lower}
use prax_sandbox.Files.Disk.{
  FilePath, Disk, file, directory, link, special, node_at, entry_at, path_eq, path_beq,
}
use prax_sandbox.Files.Realpath
use prax_sandbox.Files.Kernel
use prax_sandbox.Files.System
use prax_sandbox.Files.Confined
use prax_sandbox.Files.Confined.{ok, err, os_error, confine}
use prax_sandbox.Files.Walk
use prax_sandbox.Files.Walk.{isdir}
use prax_sandbox.Files.Walk.Finds.{AreNamed}
use prax_sandbox.Files.Listing
use prax_sandbox.Files.Listing.{
  file_entry, dir_entry, list_dir, splitlines, first_match, Hit, grep, pull_tar, Storage, TarMember,
  packed, hard_link,
}
use prax_sandbox.Files.Listing.Packs.{IsPacked, IsHeld, pull_tar-IsPacked}
use prax_sandbox.Files.Walk.Exact.{Chain}
use prax_sandbox.Files.Listing.Hits.{IsHit, grep-IsHit}

listing_runs : Unit {0}
unfolding Text.text_beq Text.starts_with Text.split Text.join Text.has_text Text.lower_code
    Text.lower Text.lstrip Text.rstrip Text.strip path_beq node_at entry_at Realpath.find_seen
    Realpath.name_step Realpath.walk Realpath.resolve Realpath.realpath Kernel.look_up
    Kernel.find_names Kernel.kernel System.find_place System.stat Confined.is_below confine
    Confined.names_below Walk.names_in Walk.walk_files Walk.depth Walk.walk Listing.rel_text
    Listing.entry_of Listing.text_le Listing.insert_text Listing.sorted list_dir splitlines
    Listing.first_line first_match Listing.hit_of Listing.grep_files grep Listing.packed_name
    Listing.tar_files pull_tar contains
listing_runs = tt

-- `/w` with `b`, `d/a` and links to `/etc` and to `b`; `/w/b` stands twice, the first one counts.
abbrev disk : Disk
disk =
    (codes "b" ∷ codes "w" ∷ [], file (codes "It's Here"))
    ∷ (codes "w" ∷ [], directory)
    ∷ (codes "b" ∷ codes "w" ∷ [], file (codes "old"))
    ∷ (codes "out" ∷ codes "w" ∷ [], link (codes "/etc"))
    ∷ (codes "l" ∷ codes "w" ∷ [], link (codes "b"))
    ∷ (codes "d" ∷ codes "w" ∷ [], directory)
    ∷ (codes "a" ∷ codes "d" ∷ codes "w" ∷ [], file (codes "x"))
    ∷ (codes "etc" ∷ [], directory)
    ∷ (codes "passwd" ∷ codes "etc" ∷ [], file (codes "here"))
    ∷ []

abbrev root : FilePath
root = codes "w" ∷ []

abbrev any_name : Text → Text → Bool
any_name name pattern' = true

abbrev as_is : Text → Text
as_is t = t

-- `c` is another name of `b`; a text comes out of a pipe `p`.
abbrev storage : Storage
storage = record {
  decode = as_is;
  special_text = λ p. some (codes "over here");
  inode = λ p. if p == codes "a" ∷ codes "d" ∷ codes "w" ∷ [] then 1 else 0;
}

abbrev linked_disk : Disk
linked_disk =
    (codes "c" ∷ codes "w" ∷ [], file (codes "It's Here"))
    ∷ (codes "p" ∷ codes "w" ∷ [], special)
    ∷ disk

listing_tests :
    (list_dir disk root [] true
      ≡ ok (
          record { path = codes "b"; type = file_entry }
          ∷ record { path = codes "l"; type = file_entry }
          ∷ record { path = codes "d/a"; type = file_entry }
          ∷ []))
    × (list_dir disk root [] false
        ≡ ok (
            record { path = codes "b"; type = file_entry }
            ∷ record { path = codes "d"; type = dir_entry }
            ∷ record { path = codes "l"; type = file_entry }
            ∷ record { path = codes "out"; type = dir_entry }
            ∷ []))
    × (list_dir disk root (codes "b") false ≡ err os_error)
    × (list_dir disk root (codes "none") false ≡ ok [])
unfolding listing_runs
listing_tests = (refl, refl, refl, refl)

text_tests :
    (splitlines (codes "a\r\nb\n\nc") ≡ codes "a" ∷ codes "b" ∷ [] ∷ codes "c" ∷ [])
    × (first_match (codes "one\n  Two here \n") (codes "two") ≡ codes "Two here")
unfolding listing_runs
text_tests = (refl, refl)

abbrev hit : Hit
hit = record { path = codes "b"; session_id = codes "w"; snippet = codes "It's Here" }

grep_tests :
    (confine disk root [] ≡ some root)
    × (grep any_name storage disk root (codes "HERE") [] (codes "*") 200 ≡ ok (hit ∷ []))
    × (grep any_name storage disk root [] [] (codes "*") 200 ≡ ok [])
    × (isdir disk root ≡ true)
unfolding listing_runs
grep_tests = (refl, refl, refl, refl)

disk-AreNamed : AreNamed disk
unfolding listing_runs
disk-AreNamed = (
  (refl, refl),
  (
    (refl, refl),
    (
      (refl, refl),
      (
        (refl, refl),
        ((refl, refl), ((refl, refl), ((refl, refl), ((refl, refl), ((refl, refl), tt))))),
      ),
    ),
  ),
)

grep-IsHit_example :
    (length (hit ∷ []) ≤ max 1 200)
    × ((h : Hit)
        → Elem h (hit ∷ [])
        → IsHit any_name storage disk root (lower (codes "HERE")) (codes "*") root h)
grep-IsHit_example =
    grep-IsHit any_name storage disk root root (codes "HERE") [] (codes "*") 200 (hit ∷ [])
      disk-AreNamed grep_tests.0 grep_tests.1

abbrev packed_files : List TarMember
packed_files = packed (codes "b") (codes "It's Here") ∷ packed (codes "d/a") (codes "x") ∷ []

pull_tests :
    (pull_tar storage disk root [] ≡ ok packed_files)
    × (pull_tar storage linked_disk root []
        ≡ ok (
            packed (codes "c") (codes "It's Here")
            ∷ hard_link (codes "b") (codes "c")
            ∷ packed (codes "d/a") (codes "x")
            ∷ []))
    × (grep any_name storage linked_disk root (codes "over") [] (codes "*") 200
        ≡ ok
            (record { path = codes "p"; session_id = codes "w"; snippet = codes "over here" } ∷ []))
unfolding listing_runs
pull_tests = (refl, refl, refl)

pull_tar-IsPacked_example :
    (tar : List TarMember) × (pull_tar storage disk root [] ≡ ok tar)
    × All (IsPacked storage disk root root) tar
    × ((n : Text) (p : FilePath) (t : Text)
        → Chain disk root p
        → node_at disk (n ∷ p) ≡ some (file t)
        → IsHeld root tar (n ∷ p) t)
pull_tar-IsPacked_example =
    pull_tar-IsPacked storage disk root root [] disk-AreNamed grep_tests.0 grep_tests.3
