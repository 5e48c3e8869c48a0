-- ===== src/Diagnostics.antt =====
-- engine_runtime.rs, `DiagnosticBuffer`: the redacted lines of the engine that are kept for the
-- user, the oldest dropped first.
pub mod Bounds
mod Examples
use route_deck.Prelude.{
  ℕ, zero, suc, ◌+◌, ◌-◌, ◌*◌, Bool, true, false, ◌||◌, List, [], ◌∷◌, ◌++◌, ltb, if◌then◌else◌,
  length,
}
use route_deck.Text.{Text, byte_len, codes}

abbrev pub max_diagnostic_lines : ℕ
max_diagnostic_lines = 128

abbrev pub max_diagnostic_bytes : ℕ
max_diagnostic_bytes = 64 * 1024

abbrev pub max_line_bytes : ℕ
max_line_bytes = 4 * 1024

-- `bytes` is a `usize`; the buffer's bound keeps it far below `usize::MAX`.
pub record DiagnosticBuffer : Type 0 where
  pub lines : List Text
  pub bytes : ℕ

-- DiagnosticBuffer::default
abbrev pub default : DiagnosticBuffer
default = record { lines = []; bytes = 0 }

unfoldable pub clear : DiagnosticBuffer → DiagnosticBuffer
clear b = record { lines = []; bytes = 0 }

abbrev pub omitted : Text
omitted = codes "[REDACTED: diagnostic line omitted]"

unfoldable pub kept_line : Text → Text
kept_line line = if ltb max_line_bytes (byte_len line) then omitted else line

unfoldable pub is_over : ℕ → ℕ → Bool
is_over lines bytes = ltb max_diagnostic_lines lines || ltb max_diagnostic_bytes bytes

-- The loop of `push`, which drops lines from the front. With no line left and too many bytes it
-- would not end; `saturating_sub` is the subtraction of ℕ.
unfoldable pub trimmed : List Text → ℕ → DiagnosticBuffer
unfolding is_over
trimmed [] bytes = record { lines = []; bytes = bytes }
trimmed (l ∷ ls) bytes =
    let rest = trimmed ls (bytes - byte_len l) in
    if is_over (length (l ∷ ls)) bytes then rest else record { lines = l ∷ ls; bytes = bytes }

unfoldable pub push : Text → DiagnosticBuffer → DiagnosticBuffer
unfolding trimmed kept_line
push line b =
    let line' = kept_line line in trimmed (b.lines ++ line' ∷ []) (b.bytes + byte_len line')

unfoldable pub snapshot : DiagnosticBuffer → List Text
snapshot b = b.lines
