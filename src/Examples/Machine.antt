-- ===== src/Examples/Machine.antt =====
-- A machine that obeys the laws of the platform: its settings, its files, and how many removals of
-- the journal it still refuses.
use route_deck.Prelude.{
  ℕ, zero, suc, ◌≡◌, ◌≢◌, refl, sym, ap, subst, inl, inr, Bool, true, false, Option, none, some,
  List, [], ◌∷◌, length, take, all, if◌then◌else◌, holds, holds_of, holds_iff, Bool-cases,
}
use mathlib.Core.Option.{some-injective}
use route_deck.Text.{Text, Text-discrete}
use route_deck.Text.Hex.{is_byte}
use route_deck.Action.{ok}
use route_deck.SystemProxy.Snapshot.{SystemProxySnapshot}
use route_deck.SystemProxy.Platform.{
  Platform, PlatformLaws, FilePath, active_journal, conflict_evidence, FileRead, missing,
  unreadable, contents, LinkOutcome, linked, already_exists, link_failed, RemoveOutcome, removed,
  remove_failed,
}
use route_deck.Examples.Codec.{encode, decode, decode-encode}

pub record Machine : Type 0 where
  pub now : SystemProxySnapshot
  pub journal : Option (List ℕ)
  pub evidence : Text → Option (List ℕ)
  pub refusals : ℕ

unfoldable pub file_of : FilePath → Machine → Option (List ℕ)
file_of active_journal m = m.journal
file_of (conflict_evidence owner) m = m.evidence owner

unfoldable pub with_file : FilePath → List ℕ → Machine → Machine
with_file active_journal b m = record m { journal = some b }
with_file (conflict_evidence owner) b m = record m {
  evidence = λ o. if holds (Text-discrete owner o) then some b else m.evidence o;
}

unfoldable pub sevens : ℕ → List ℕ
sevens zero = []
sevens (suc n) = 7 ∷ sevens n

unfoldable pub create : FilePath → Option (List ℕ) → Machine → Bool × Machine
unfolding with_file
create x none m = (true, with_file x [] m)
create x (some b) m = (false, m)

unfoldable pub read : ℕ → Option (List ℕ) → FileRead
read n none = missing
read n (some b) = contents (take n b)

unfoldable pub link : FilePath → Option (List ℕ) → Option (List ℕ) → Machine → LinkOutcome × Machine
unfolding with_file
link x (some old) source m = (already_exists, m)
link x none none m = (link_failed, m)
link x none (some b) m = (linked, with_file x b m)

unfoldable pub remove : FilePath → ℕ → Machine → RemoveOutcome × Machine
remove active_journal zero m = (removed, record m { journal = none })
remove active_journal (suc n) m = (remove_failed, record m { refusals = n })
remove (conflict_evidence owner) n m = (remove_failed, m)

abbrev pub machine : ℕ → Platform
machine padding = record {
  World = Machine;
  fill_random = λ n m. (some (sevens n), m);
  snapshot = λ m. (ok m.now, m);
  apply = λ s m. (ok tt, record m { now = s });
  create_parent = λ m. (true, m);
  create_new = λ x m. create x (file_of x m) m;
  write_all = λ x b m. (true, with_file x b m);
  read_file = λ x n m. (read n (file_of x m), m);
  hard_link = λ x m. link x (file_of x m) m.journal m;
  remove_file = λ x m. remove x m.refusals m;
  to_vec = encode padding;
  from_slice = decode;
}

pub sevens-bytes : (n : ℕ) → (all is_byte (sevens n) ≡ true) × (length (sevens n) ≡ n)
unfolding sevens
sevens-bytes zero = (refl, refl)
sevens-bytes (suc n) = ((sevens-bytes n).0, ap suc (sevens-bytes n).1)

pub now-with_file : (x : FilePath) (b : List ℕ) (m : Machine) → (with_file x b m).now ≡ m.now
unfolding with_file
now-with_file active_journal b m = refl
now-with_file (conflict_evidence o) b m = refl

pub file_of-with_file :
    (x : FilePath) (b : List ℕ) (m : Machine) → file_of x (with_file x b m) ≡ some b
unfolding with_file file_of
file_of-with_file active_journal b m = refl
file_of-with_file (conflict_evidence o) b m = rw (holds_of (Text-discrete o o) refl)

pub file_of-with_file_ne :
    (x y : FilePath) (b : List ℕ) (m : Machine) → x ≢ y → file_of y (with_file x b m) ≡ file_of y m
unfolding with_file file_of
file_of-with_file_ne active_journal active_journal b m h = absurd (h refl)
file_of-with_file_ne active_journal (conflict_evidence o) b m h = refl
file_of-with_file_ne (conflict_evidence o) active_journal b m h = refl
file_of-with_file_ne (conflict_evidence o) (conflict_evidence q) b m h =
    elim (Bool-cases (holds (Text-discrete o q))) [
      | inl same ↦ absurd (h (ap conflict_evidence (holds_iff (Text-discrete o q) same)))
      | inr other ↦ rw other
    ]

pub file_of-now :
    (x : FilePath) (s : SystemProxySnapshot) (m : Machine)
    → file_of x (record m { now = s }) ≡ file_of x m
unfolding file_of
file_of-now active_journal s m = refl
file_of-now (conflict_evidence o) s m = refl

module _ (x : FilePath) (m : Machine) where
  pub create_keeps : (o : Option (List ℕ)) → (create x o m).1.now ≡ m.now
  unfolding create
  create_keeps none = now-with_file x [] m
  create_keeps (some b) = refl

  pub create_new_only : (o : Option (List ℕ)) → (create x o m).0 ≡ true → o ≡ none
  unfolding create
  create_new_only none h = refl
  create_new_only (some b) h = cc

  pub create_refuses :
      (y : FilePath) (o : Option (List ℕ))
      → (create x o m).0 ≡ false
      → file_of y (create x o m).1 ≡ file_of y m
  unfolding create
  create_refuses y none h = cc
  create_refuses y (some b) h = refl

  pub create_others :
      (y : FilePath) (o : Option (List ℕ)) → x ≢ y → file_of y (create x o m).1 ≡ file_of y m
  unfolding create
  create_others y none h = file_of-with_file_ne x y [] m h
  create_others y (some b) h = refl

  pub link_keeps : (o s : Option (List ℕ)) → (link x o s m).1.now ≡ m.now
  unfolding link
  link_keeps (some b) s = refl
  link_keeps none none = refl
  link_keeps none (some b) = now-with_file x b m

  pub link_copies :
      (o s : Option (List ℕ)) → (link x o s m).0 ≡ linked → file_of x (link x o s m).1 ≡ s
  unfolding link
  link_copies (some b) s h = cc
  link_copies none none h = cc
  link_copies none (some b) h = file_of-with_file x b m

  pub link_refuses :
      (y : FilePath) (o s : Option (List ℕ))
      → (link x o s m).0 ≢ linked
      → file_of y (link x o s m).1 ≡ file_of y m
  unfolding link
  link_refuses y (some b) s h = refl
  link_refuses y none none h = refl
  link_refuses y none (some b) h = absurd (h refl)

  pub link_others :
      (y : FilePath) (o s : Option (List ℕ)) → x ≢ y → file_of y (link x o s m).1 ≡ file_of y m
  unfolding link
  link_others y (some b) s h = refl
  link_others y none none h = refl
  link_others y none (some b) h = file_of-with_file_ne x y b m h

module _ (m : Machine) where
  pub remove_keeps : (x : FilePath) (n : ℕ) → (remove x n m).1.now ≡ m.now
  unfolding remove
  remove_keeps active_journal zero = refl
  remove_keeps active_journal (suc n) = refl
  remove_keeps (conflict_evidence o) n = refl

  pub remove_removes :
      (x : FilePath) (n : ℕ) → (remove x n m).0 ≢ remove_failed → file_of x (remove x n m).1 ≡ none
  unfolding remove file_of
  remove_removes active_journal zero h = refl
  remove_removes active_journal (suc n) h = absurd (h refl)
  remove_removes (conflict_evidence o) n h = absurd (h refl)

  pub remove_refuses :
      (x y : FilePath) (n : ℕ)
      → (remove x n m).0 ≡ remove_failed
      → file_of y (remove x n m).1 ≡ file_of y m
  unfolding remove file_of
  remove_refuses active_journal y zero h = cc
  remove_refuses active_journal active_journal (suc n) h = refl
  remove_refuses active_journal (conflict_evidence o) (suc n) h = refl
  remove_refuses (conflict_evidence o) y n h = refl

  pub remove_others : (x y : FilePath) (n : ℕ) → x ≢ y → file_of y (remove x n m).1 ≡ file_of y m
  unfolding remove file_of
  remove_others active_journal active_journal n h = absurd (h refl)
  remove_others active_journal (conflict_evidence o) zero h = refl
  remove_others active_journal (conflict_evidence o) (suc n) h = refl
  remove_others (conflict_evidence o) y n h = refl

pub read_nothing : (n : ℕ) (o : Option (List ℕ)) → read n o ≡ missing → o ≡ none
unfolding read
read_nothing n none h = refl
read_nothing n (some b) h = cc

taken : FileRead → List ℕ
taken missing = []
taken unreadable = []
taken (contents b) = b

pub read-some :
    (n : ℕ) (o : Option (List ℕ)) (b : List ℕ)
    → read n o ≡ contents b
    → (whole : List ℕ) × (o ≡ some whole) × (b ≡ take n whole)
unfolding read taken
read-some n none b h = cc
read-some n (some w) b h = (w, refl, sym (ap taken h))

unfoldable pub machine_laws : (padding : ℕ) → PlatformLaws (machine padding)
unfolding file_of
machine_laws padding = record {
  settings = λ m. m.now;
  file = file_of;
  random_bytes = λ n m b e.
      let same : sevens n ≡ b = some-injective _ _ e in
      subst (λ (c : List ℕ). (all is_byte c ≡ true) × (length c ≡ n)) same (sevens-bytes n);
  random_settings = λ n m. refl;
  random_file = λ n x m. refl;
  snapshot_reads = λ m s e. cc e;
  snapshot_error = λ m s e. cc;
  snapshot_settings = λ m. refl;
  snapshot_file = λ x m. refl;
  apply_settings = λ s m. inr refl;
  apply_file = λ s x m. file_of-now x s m;
  parent_settings = λ m. refl;
  parent_file = λ x m. refl;
  create_settings = λ x m. create_keeps x m (file_of x m);
  create_exclusive = λ x m. create_new_only x m (file_of x m);
  create_refused = λ x y m. create_refuses x m y (file_of x m);
  create_other = λ x y m. create_others x m y (file_of x m);
  write_settings = λ x b m. now-with_file x b m;
  write_done = λ x b m _. file_of-with_file x b m;
  write_other = λ x y b m. file_of-with_file_ne x y b m;
  read_settings = λ x n m. refl;
  read_keeps = λ x y n m. refl;
  read_missing = λ x n m. read_nothing n (file_of x m);
  read_contents = λ x n m. read-some n (file_of x m);
  link_settings = λ x m. link_keeps x m (file_of x m) m.journal;
  link_done = λ x m. link_copies x m (file_of x m) m.journal;
  link_refused = λ x y m. link_refuses x m y (file_of x m) m.journal;
  link_other = λ x y m. link_others x m y (file_of x m) m.journal;
  remove_settings = λ x m. remove_keeps m x m.refusals;
  remove_done = λ x m. remove_removes m x m.refusals;
  remove_refused = λ x y m. remove_refuses m x y m.refusals;
  remove_other = λ x y m. remove_others m x y m.refusals;
  from_slice-to_vec = λ j b. decode-encode padding j b;
}
