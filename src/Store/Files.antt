-- ===== src/Store/Files.antt =====
-- FileRepository of internal/store/file.go, with the snapshots of internal/store/snapshot.go: a memory
-- and the file that holds its maps. A copy of a map holds what the map holds, so a snapshot is a
-- Memory; the fault of a save is the test beside each call.
use anix_ops_sd_wan.Base.{
  Text, ◌==◌, Bool, true, false, Option, none, some, List, [], ◌∷◌, ◌++◌, ◌≡◌, if◌then◌else◌,
  Outcome, ok, ◌>>◌, reject,
}
use anix_ops_sd_wan.Net.{Net}
use anix_ops_sd_wan.Store.{Memory, new_memory}
use anix_ops_sd_wan.Store.Calls.{Call, call}

pub data FileError : Type 0 where
  path_required load_failed : FileError

pub record FileRepository : Type 0 where
  pub memory : Memory
  pub file : Option Memory

-- NewMemoryFromSnapshot of the file, NewMemory where there is none
unfoldable pub memory_of : Option Memory → Memory
memory_of none = new_memory
memory_of (some snapshot) = snapshot

-- `fault` is an error of reading or decoding a file that is there.
unfoldable pub new_file_repository : Text → Bool → Option Memory → Outcome FileError FileRepository
new_file_repository path fault file = do
  reject (path == []) path_required
  reject fault load_failed
  ok (record { memory = memory_of file; file = file })

module _ (net : Net) where
  saved : FileRepository → Bool → Memory × Bool → FileRepository × Bool
  saved r fault (m, false) = (record r { memory = m }, false)
  saved r fault (m, true) =
      if fault
      then (record r { memory = m }, false)
      else (record { memory = m; file = some m }, true)

  -- A call on the memory, then save where it gave no error; whether the whole gives no error.
  unfoldable pub file_call : FileRepository → Call × Bool → FileRepository × Bool
  unfolding saved
  file_call r (c, fault) = saved r fault (call net r.memory c)

  unfoldable pub file_run : FileRepository → List (Call × Bool) → FileRepository
  file_run r [] = r
  file_run r (c ∷ cs) = file_run (file_call r c).0 cs

  -- Each call of the list gives an error.
  abbrev pub IsFailing : FileRepository → List (Call × Bool) → Type 0
  IsFailing r [] = Unit {0}
  IsFailing r (c ∷ cs) = ((file_call r c).1 ≡ false) × IsFailing (file_call r c).0 cs

  -- There is no call, or the last of them gives no error.
  abbrev pub EndsWell : FileRepository → List (Call × Bool) → Type 0
  EndsWell r [] = Unit {0}
  EndsWell r (c ∷ []) = (file_call r c).1 ≡ true
  EndsWell r (c ∷ d ∷ cs) = EndsWell (file_call r c).0 (d ∷ cs)

  -- What the file brings back after calls of which the last gave no error.
  abbrev pub brought : FileRepository → List (Call × Bool) → Memory
  brought r [] = memory_of r.file
  brought r (c ∷ cs) = (file_run r (c ∷ cs)).memory

  -- The calls are some that end well, or none, and others that give an error each; the file brings
  -- back the memory behind the first part.
  abbrev pub IsDurable : FileRepository → List (Call × Bool) → Type 0
  IsDurable r cs =
      (first : List (Call × Bool)) × (rest : List (Call × Bool)) × (cs ≡ first ++ rest)
      × EndsWell r first
      × IsFailing (file_run r first) rest
      × (memory_of (file_run r cs).file ≡ brought r first)
