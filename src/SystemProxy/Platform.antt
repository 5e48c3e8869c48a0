-- ===== src/SystemProxy/Platform.antt =====
-- What system_proxy.rs calls and does not implement: the operating system's random source, the
-- settings behind the trait `SystemProxyBackend`, the file system and the JSON codec of the
-- journal. They are parameters, with their documented behaviour as laws.
use route_deck.Prelude.{
  ℕ, ◌≡◌, ◌≢◌, ◌⊎◌, Bool, true, false, Option, none, some, List, all, take, length,
}
use route_deck.Text.{Text}
use route_deck.Text.Hex.{is_byte}
use route_deck.Action.{Result, ok, err}
use route_deck.SystemProxy.Snapshot.{SystemProxySnapshot, SystemProxyError, may_have_changed}
use route_deck.SystemProxy.Journal.{SystemProxyJournal}

-- The files that a session touches: `journal_path`, and the evidence kept beside it.
pub data FilePath : Type 0 where
  active_journal : FilePath
  conflict_evidence : Text → FilePath

pub data FileRead : Type 0 where
  missing unreadable : FileRead
  contents : List ℕ → FileRead

pub data LinkOutcome : Type 0 where
  linked already_exists link_failed : LinkOutcome

pub data RemoveOutcome : Type 0 where
  removed not_found remove_failed : RemoveOutcome

pub record Platform : Type 1 where
  pub World : Type 0
  -- fill_random, by number of bytes
  pub fill_random : ℕ → World → Option (List ℕ) × World
  -- SystemProxyBackend::snapshot and ::apply
  pub snapshot : World → Result SystemProxyError SystemProxySnapshot × World
  pub apply : SystemProxySnapshot → World → Result SystemProxyError (Unit {0}) × World
  -- fs::create_dir_all of the journal's parent
  pub create_parent : World → Bool × World
  -- OpenOptions::create_new(true).open
  pub create_new : FilePath → World → Bool × World
  -- write_all and sync_all
  pub write_all : FilePath → List ℕ → World → Bool × World
  -- File::open and read_to_end of at most so many bytes
  pub read_file : FilePath → ℕ → World → FileRead × World
  -- fs::hard_link(&journal_path, _)
  pub hard_link : FilePath → World → LinkOutcome × World
  -- fs::remove_file
  pub remove_file : FilePath → World → RemoveOutcome × World
  -- serde_json::to_vec and ::from_slice
  pub to_vec : SystemProxyJournal → Option (List ℕ)
  pub from_slice : List ℕ → Option SystemProxyJournal

-- The documented behaviour, over two views of the world: the settings in force and the files.
-- No other program writes either of them between the calls of one operation.
pub record PlatformLaws (p : Platform) : Type 0 where
  pub settings : p.World → SystemProxySnapshot
  pub file : FilePath → p.World → Option (List ℕ)
  pub random_bytes :
      (n : ℕ) (w : p.World) (bytes : List ℕ)
      → (p.fill_random n w).0 ≡ some bytes
      → (all is_byte bytes ≡ true) × (length bytes ≡ n)
  pub random_settings : (n : ℕ) (w : p.World) → settings (p.fill_random n w).1 ≡ settings w
  pub random_file : (n : ℕ) (x : FilePath) (w : p.World) → file x (p.fill_random n w).1 ≡ file x w
  pub snapshot_reads :
      (w : p.World) (s : SystemProxySnapshot) → (p.snapshot w).0 ≡ ok s → s ≡ settings w
  -- A failed read is never reported as a refusal that left everything alone.
  pub snapshot_error :
      (w : p.World) (e : SystemProxyError) → (p.snapshot w).0 ≡ err e → may_have_changed e ≡ true
  pub snapshot_settings : (w : p.World) → settings (p.snapshot w).1 ≡ settings w
  pub snapshot_file : (x : FilePath) (w : p.World) → file x (p.snapshot w).1 ≡ file x w
  -- The settings are written as a whole or not at all, and by no other program meanwhile; only the
  -- read back tells which.
  pub apply_settings :
      (s : SystemProxySnapshot) (w : p.World)
      → (settings (p.apply s w).1 ≡ settings w) ⊎ (settings (p.apply s w).1 ≡ s)
  pub apply_file :
      (s : SystemProxySnapshot) (x : FilePath) (w : p.World) → file x (p.apply s w).1 ≡ file x w
  pub parent_settings : (w : p.World) → settings (p.create_parent w).1 ≡ settings w
  pub parent_file : (x : FilePath) (w : p.World) → file x (p.create_parent w).1 ≡ file x w
  pub create_settings : (x : FilePath) (w : p.World) → settings (p.create_new x w).1 ≡ settings w
  -- `create_new` never opens a file that exists.
  pub create_exclusive :
      (x : FilePath) (w : p.World) → (p.create_new x w).0 ≡ true → file x w ≡ none
  pub create_refused :
      (x y : FilePath) (w : p.World)
      → (p.create_new x w).0 ≡ false
      → file y (p.create_new x w).1 ≡ file y w
  pub create_other : (x y : FilePath) (w : p.World) → x ≢ y → file y (p.create_new x w).1 ≡ file y w
  pub write_settings :
      (x : FilePath) (b : List ℕ) (w : p.World) → settings (p.write_all x b w).1 ≡ settings w
  pub write_done :
      (x : FilePath) (b : List ℕ) (w : p.World)
      → (p.write_all x b w).0 ≡ true
      → file x (p.write_all x b w).1 ≡ some b
  pub write_other :
      (x y : FilePath) (b : List ℕ) (w : p.World) → x ≢ y → file y (p.write_all x b w).1 ≡ file y w
  pub read_settings :
      (x : FilePath) (n : ℕ) (w : p.World) → settings (p.read_file x n w).1 ≡ settings w
  pub read_keeps : (x y : FilePath) (n : ℕ) (w : p.World) → file y (p.read_file x n w).1 ≡ file y w
  pub read_missing :
      (x : FilePath) (n : ℕ) (w : p.World) → (p.read_file x n w).0 ≡ missing → file x w ≡ none
  pub read_contents :
      (x : FilePath) (n : ℕ) (w : p.World) (b : List ℕ)
      → (p.read_file x n w).0 ≡ contents b
      → (all_bytes : List ℕ) × (file x w ≡ some all_bytes) × (b ≡ take n all_bytes)
  pub link_settings : (x : FilePath) (w : p.World) → settings (p.hard_link x w).1 ≡ settings w
  pub link_done :
      (x : FilePath) (w : p.World)
      → (p.hard_link x w).0 ≡ linked
      → file x (p.hard_link x w).1 ≡ file active_journal w
  pub link_refused :
      (x y : FilePath) (w : p.World)
      → (p.hard_link x w).0 ≢ linked
      → file y (p.hard_link x w).1 ≡ file y w
  pub link_other : (x y : FilePath) (w : p.World) → x ≢ y → file y (p.hard_link x w).1 ≡ file y w
  pub remove_settings : (x : FilePath) (w : p.World) → settings (p.remove_file x w).1 ≡ settings w
  pub remove_done :
      (x : FilePath) (w : p.World)
      → (p.remove_file x w).0 ≢ remove_failed
      → file x (p.remove_file x w).1 ≡ none
  pub remove_refused :
      (x y : FilePath) (w : p.World)
      → (p.remove_file x w).0 ≡ remove_failed
      → file y (p.remove_file x w).1 ≡ file y w
  pub remove_other :
      (x y : FilePath) (w : p.World) → x ≢ y → file y (p.remove_file x w).1 ≡ file y w
  pub from_slice-to_vec :
      (j : SystemProxyJournal) (b : List ℕ) → p.to_vec j ≡ some b → p.from_slice b ≡ some j
