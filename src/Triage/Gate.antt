-- ===== src/Triage/Gate.antt =====
-- The single-writer gate of scripts/lib/triage/gate.py between concurrent runs: `acquire`, which
-- publishes by `exclusive_create` of scripts/lib/triage/storage.py, `GateLease.verify` and
-- `GateLease.release`, which removes by `unlink_inode`, in the order of their system calls. A run
-- is known by its owner token, a fresh uuid: the name of its staged file, that file's inode and the
-- record in it belong to one run. So a directory shows whose file is at the gate's path, which
-- staged files are there and which files recovery has quarantined, and a file has a link for each of
-- its names. The directories above the gate stay in place. The operator's recovery of
-- scripts/lib/triage/recovery.py takes the gate of a run that has ended, by `quarantine_inode` of
-- storage.py, and no two recoveries run at once; the run that it then starts is a run like any other.
pub mod Exclusive
pub mod Lease
use agentic_dev_kit.Base.{
  ◌≡◌, String, Bool, true, false, ◌&&◌, ◌||◌, not, Option, none, some, if◌then◌else◌, ◌==◌,
}

pub record Directory : Type 0 where
  pub gate : Option String
  pub staged : String → Bool
  pub kept : String → Bool

-- how far a run has come; `refused` and `lost` are the two ways to stop with a `TriageError`
pub data Phase : Type 0 where
  started looked prepared published holding verified approved released : Phase
  refused lost dead : Phase

abbrev pub with_name : String → Bool → (String → Bool) → String → Bool
with_name t here staged u = if t == u then here else staged u

-- the gate's file is the run's own
unfoldable pub is_own : Option String → String → Bool
is_own none t = false
is_own (some u) t = u == t

-- the gate is there with a single link
unfoldable pub is_settled : Directory → Option String → Bool
is_settled d none = false
is_settled d (some u) = not (d.staged u || d.kept u)

-- `os.link` to the gate's path, which fails where a file is there; the staged name goes either way
unfoldable pub publish : String → Directory → Option String → Directory × Phase
publish t d none = (record d { gate = some t }, published)
publish t d (some u) = (record d { staged = with_name t false d.staged }, refused)

-- the next system calls of a run, up to the one that other runs can see
unfoldable pub turn : String → Directory → Phase → Directory × Phase
unfolding is_own is_settled publish
turn t d started = (d, if is_settled d d.gate then refused else looked)
turn t d looked = (record d { staged = with_name t true d.staged }, prepared)
turn t d prepared = publish t d d.gate
turn t d published = (record d { staged = with_name t false d.staged }, holding)
turn t d holding = (d, if is_own d.gate t then verified else lost)
turn t d verified = (d, if is_own d.gate t && is_settled d d.gate then approved else lost)
turn t d approved = (record d { gate = none }, released)
turn t d ended = (d, ended)

-- the runs on one gate
pub record World : Type 0 where
  pub dir : Directory
  pub phase : String → Phase

abbrev pub with_phase : String → Phase → (String → Phase) → String → Phase
with_phase t p phase u = if t == u then p else phase u

-- a run's next turn
unfoldable pub act : String → World → World
unfolding turn
act t w =
    let (d, p) = turn t w.dir (w.phase t) in record { dir = d; phase = with_phase t p w.phase }

-- a run ends where it is
unfoldable pub die : String → World → World
die t w = record w { phase = with_phase t dead w.phase }

-- `_cleanup_orphaned_temporaries`, or recovery, takes away the staged file of a run that has ended
unfoldable pub clean : String → World → World
clean t w = record w { dir = record (w.dir) { staged = with_name t false (w.dir).staged } }

-- `quarantine_inode` links the gate to its quarantine name
unfoldable pub quarantine : String → World → World
quarantine t w = record w { dir = record (w.dir) { kept = with_name t true (w.dir).kept } }

-- and then removes it from the gate's path
unfoldable pub take_gate : World → World
take_gate w = record w { dir = record (w.dir) { gate = none } }

pub data Step (w : World) : World → Type 0 where
  acts : (t : String) → Step w (act t w)
  dies : (t : String) → Step w (die t w)
  cleans : (t : String) → w.phase t ≡ dead → Step w (clean t w)
  quarantines :
      (t : String)
      → w.phase t ≡ dead
      → (w.dir).gate ≡ some t
      → (w.dir).staged t ≡ false
      → Step w (quarantine t w)
  takes :
      (t : String)
      → w.phase t ≡ dead
      → (w.dir).gate ≡ some t
      → (w.dir).kept t ≡ true
      → Step w (take_gate w)

pub data Reach (w : World) : World → Type 0 where
  here : Reach w w
  next : {u v : World} → Reach w u → Step u v → Reach w v

-- before any run: no gate and no staged file
abbrev pub fresh : World
fresh = record {
  dir = record { gate = none; staged = λ t. false; kept = λ t. false };
  phase = λ t. started;
}
