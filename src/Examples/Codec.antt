-- ===== src/Examples/Codec.antt =====
-- A codec of journals with the round trip that the program expects of serde_json; `padding` zeros
-- at the end make it as wordy as wanted.
use route_deck.Prelude.{
  ℕ, zero, suc, ◌≡◌, refl, Option, none, some, List, [], ◌∷◌, ◌++◌, length, arith, subst, ap,
}
use mathlib.Core.Option.{some-injective}
use route_deck.Text.{Text}
use route_deck.SystemProxy.Snapshot.{SystemProxySnapshot}
use route_deck.SystemProxy.Journal.{SystemProxyJournal}

abbrev Parser : Type 0 → Type 0
Parser A = List ℕ → Option (A × List ℕ)

infixl 10 ◌>>=◌
abbrev ◌>>=◌ : {A B : Type 0} → Parser A → (A → Parser B) → Parser B
◌>>=◌ m f xs = elim (m xs) [ none ↦ none | some (a, rest) ↦ f a rest ]

abbrev pure : {A : Type 0} → A → Parser A
pure a xs = some (a, xs)

push : ℕ → Option (Text × List ℕ) → Option (Text × List ℕ)
push x none = none
push x (some (t, rest)) = some (x ∷ t, rest)

split_off : ℕ → Parser Text
unfolding push
split_off zero xs = some ([], xs)
split_off (suc n) [] = none
split_off (suc n) (x ∷ xs) = push x (split_off n xs)

number : Parser ℕ
number [] = none
number (x ∷ xs) = some (x, xs)

text : Parser Text
unfolding number split_off
text = do n ← number; split_off n

option_tail : ℕ → Parser (Option Text)
unfolding text
option_tail zero = pure none
option_tail (suc n) = do t ← text; pure (some t)

option : Parser (Option Text)
unfolding option_tail
option = do tag ← number; option_tail tag

snapshot : Parser SystemProxySnapshot
snapshot = do
  flags ← number
  server ← option
  bypass ← option
  url ← option
  pure (record {
    flags = flags;
    proxy_server = server;
    proxy_bypass = bypass;
    auto_config_url = url;
  })

journal : Parser SystemProxyJournal
journal = do
  version ← number
  owner ← text
  previous ← snapshot
  applied ← snapshot
  pure (record { version = version; owner_id = owner; previous = previous; applied = applied })

put_text : Text → List ℕ → List ℕ
put_text t rest = length t ∷ (t ++ rest)

put_option : Option Text → List ℕ → List ℕ
unfolding put_text
put_option none rest = 0 ∷ rest
put_option (some t) rest = 1 ∷ put_text t rest

put_snapshot : SystemProxySnapshot → List ℕ → List ℕ
put_snapshot s rest =
    s.flags
    ∷ put_option s.proxy_server (put_option s.proxy_bypass (put_option s.auto_config_url rest))

put_journal : SystemProxyJournal → List ℕ → List ℕ
put_journal j rest =
    j.version ∷ put_text j.owner_id (put_snapshot j.previous (put_snapshot j.applied rest))

zeros : ℕ → List ℕ
zeros zero = []
zeros (suc n) = 0 ∷ zeros n

unfoldable pub encode : ℕ → SystemProxyJournal → Option (List ℕ)
unfolding put_journal put_snapshot put_option put_text zeros
encode padding j = some (put_journal j (zeros padding))

first : {A : Type 0} → Option (A × List ℕ) → Option A
first none = none
first (some (a, rest)) = some a

unfoldable pub decode : List ℕ → Option SystemProxyJournal
unfolding first journal snapshot option text number
decode bytes = first (journal bytes)

split_off-append : (t rest : List ℕ) → split_off (length t) (t ++ rest) ≡ some (t, rest)
unfolding split_off
split_off-append [] rest = refl
split_off-append (x ∷ t) rest = rw (split_off-append t rest)

text-put_text : (t : Text) (rest : List ℕ) → text (put_text t rest) ≡ some (t, rest)
unfolding text put_text
text-put_text t rest = split_off-append t rest

option-put_option : (o : Option Text) (rest : List ℕ) → option (put_option o rest) ≡ some (o, rest)
unfolding option put_option
option-put_option none rest = refl
option-put_option (some t) rest = ground (arith, split_off-append t rest)

snapshot-put_snapshot :
    (s : SystemProxySnapshot) (rest : List ℕ) → snapshot (put_snapshot s rest) ≡ some (s, rest)
unfolding snapshot put_snapshot number
snapshot-put_snapshot s rest = ground (
  arith,
  option-put_option s.proxy_server (put_option s.proxy_bypass (put_option s.auto_config_url rest)),
  option-put_option s.proxy_bypass (put_option s.auto_config_url rest),
  option-put_option s.auto_config_url rest,
)

journal-put_journal :
    (j : SystemProxyJournal) (rest : List ℕ) → journal (put_journal j rest) ≡ some (j, rest)
unfolding journal put_journal number
journal-put_journal j rest = ground (
  arith,
  text-put_text j.owner_id (put_snapshot j.previous (put_snapshot j.applied rest)),
  snapshot-put_snapshot j.previous (put_snapshot j.applied rest),
  snapshot-put_snapshot j.applied rest,
)

pub decode-encode :
    (padding : ℕ) (j : SystemProxyJournal) (b : List ℕ)
    → encode padding j ≡ some b
    → decode b ≡ some j
unfolding decode encode
decode-encode padding j b e =
    subst (λ c. first (journal c) ≡ some j) (some-injective _ _ e)
      (ap first (journal-put_journal j (zeros padding)))
