-- ===== src/Files/Contained/Confines.antt =====
-- What `confine` of prax_sandbox/fileops.py answers.
use prax_sandbox.Base.{◌≡◌, refl, ℕ, true, false, [], ◌++◌, none, some, if◌then◌else◌, map}
use prax_sandbox.Text.{Text, split}
use prax_sandbox.Files.Disk.{FilePath, Disk}
use prax_sandbox.Files.Realpath.{name, is_absolute, realpath}
use prax_sandbox.Files.Realpath.Ends.{realpath-ends}
use prax_sandbox.Files.Kernel.{kernel, names_of}
use prax_sandbox.Files.Kernel.Agrees.Safe.{kernel-IsSafe}
use prax_sandbox.Files.Confined.{is_within, confine}
use prax_sandbox.Files.Growth.{is_under}
use prax_sandbox.Files.Contained.Within.{confine-IsConfined}

-- Whatever links the disk holds, loops of them included, `confine` ends for a relative path: it
-- resolves the path, and answers with what it got just where that is within the root.
pub confine-ends :
    (d : Disk) (root : FilePath) (rel : Text)
    → is_absolute rel ≡ false
    → (r : FilePath) × ((realpath d [] (map name (names_of root ++ split b'/' rel)) ≡ some r)
        × (confine d root rel ≡ (if is_within root r then some r else none)))
unfolding confine
confine-ends d root rel relative =
    let (r, h) = realpath-ends d [] (map name (names_of root ++ split b'/' rel)) in
    (r, (h, rw (relative, confine, h) refl))

-- A path that `confine` returns is within the root, and the system, which follows links at every
-- step of its way, finds it at this very place, or not at all.
pub confine-found :
    (d : Disk) (root : FilePath) (rel : Text) (p : FilePath)
    → confine d root rel ≡ some p
    → (is_under root p ≡ true)
      × ((k j : ℕ) (m : FilePath) → kernel d k [] (names_of p) ≡ some (m, j) → m ≡ p)
confine-found d root rel p h =
    let c = confine-IsConfined d root rel p h in
    (c.under, λ k j m. kernel-IsSafe d p k m j (c.keeps d (λ q. refl)))
