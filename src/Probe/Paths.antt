-- ===== src/Probe/Paths.antt =====
-- The directories and files of a run, which src/probe/ph_io.c makes on the file system of the
-- machine.
pub mod Directory
pub mod Names
pub mod Stamp
pub mod Disk
mod Tests
use perf_hound.Prelude.{
  ℕ, zero, suc, ◌+◌, ◌≤◌, ◌<◌, ◌≡◌, ◌≢◌, Bool, true, false, ◌||◌, [], ◌∷◌, ◌++◌, Bytes, codes,
  Option, none, some, ◌==◌, if◌then◌else◌, length, ◌⊎◌,
}

abbrev pub slash : ℕ
slash = 47

-- `EEXIST` of Linux.
abbrev pub eexist : ℕ
eexist = 17

-- What the library takes from the system: `getenv("HOME")` and the directory of the user in the list
-- of users, whether a path exists, `mkdir` with its `errno`, which is
-- 0 if it succeeds, `realpath`, and what a file has: its size, and writing it anew or behind its
-- end, from its opening to its closing, which fails if it does not open.
pub record Os : Type 1 where
  pub State : Type 0
  pub home : Option Bytes
  pub user_dir : Bytes
  pub exists : State → Bytes → Bool
  pub mkdir : State → Bytes → ℕ × State
  pub realpath : State → Bytes → ℕ ⊎ Bytes
  pub size : State → Bytes → ℕ
  pub put : State → Bytes → Bytes → Option State
  pub add : State → Bytes → Bytes → Option State

-- `mkdir` succeeds only on a path that does not exist, which then does, answers EEXIST exactly on a
-- path that does, and changes nothing when it fails; no call takes a path away; and text that is
-- added to a file makes it longer by its length.
pub record IsLawful (os : Os) : Type 0 where
  pub mkdir_made :
      (s : os.State) (p : Bytes) → (os.mkdir s p).0 ≡ 0 → os.exists ((os.mkdir s p).1) p ≡ true
  pub mkdir_old : (s : os.State) (p : Bytes) → os.exists s p ≡ true → (os.mkdir s p).0 ≡ eexist
  pub mkdir-eexist : (s : os.State) (p : Bytes) → (os.mkdir s p).0 ≡ eexist → os.exists s p ≡ true
  pub mkdir_failed : (s : os.State) (p : Bytes) → (os.mkdir s p).0 ≢ 0 → (os.mkdir s p).1 ≡ s
  pub mkdir-keeps :
      (s : os.State) (p q : Bytes) → os.exists s q ≡ true → os.exists ((os.mkdir s p).1) q ≡ true
  pub put-keeps :
      (s t : os.State) (p text q : Bytes)
      → os.put s p text ≡ some t
      → os.exists s q ≡ true
      → os.exists t q ≡ true
  pub add-keeps :
      (s t : os.State) (p text q : Bytes)
      → os.add s p text ≡ some t
      → os.exists s q ≡ true
      → os.exists t q ≡ true
  pub size-add :
      (s t : os.State) (p text : Bytes)
      → os.add s p text ≡ some t
      → os.size t p ≡ os.size s p + length text
