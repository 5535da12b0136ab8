-- ===== src/Integration/Token.antt =====
-- `get_token_from_logs` of scripts/docker_integration.py, over what the log file is.
use sndv_kv.Python.{os_error, value_error}
use sndv_kv.Python.Actions.{Py, pure, throw}
use sndv_kv.Python.Texts.{cut, strip}
use sndv_kv.Prelude.{Text, text, List, [], ◌∷◌, Option, none, some, ◌==◌, if◌then◌else◌}

-- `s.split(p)[1]` of a text that holds `p`: what stands between its first two places.
unfoldable pub second_part : Text → Text → Option Text
unfolding cut
second_part p s = elim (cut p s) [
  | none ↦ none
  | some (before, r) ↦ elim (cut p r) [ none ↦ some r | some (part, _) ↦ some part ]
]

-- `content.split('\n')`
unfoldable pub lines : Text → List Text
lines [] = [] ∷ []
lines (c ∷ s) = elim (lines s) [
  | [] ↦ (c ∷ []) ∷ []
  | line ∷ more ↦ if c == 10 then [] ∷ line ∷ more else (c ∷ line) ∷ more
]

-- The loop over the lines of the log.
unfoldable pub find_token : List Text → Option Text
unfolding second_part strip
find_token [] = none
find_token (line ∷ more) =
    let rest = find_token more in
    elim (second_part (text "ADMIN TOKEN:") line) [ none ↦ rest | some t ↦ some (strip t) ]

-- What stands at "/app/logs/server.log": nothing, a file that cannot be opened or read, one that is
-- no UTF-8, or one with a text.
pub data LogFile : Type 0 where
  missing unreadable undecodable : LogFile
  holds : Text → LogFile

-- The loop over the lines of `log_file.read_text()`; a `UnicodeDecodeError` is a `ValueError`.
unfoldable pub get_token_from_logs : LogFile → Py Text
unfolding find_token lines
get_token_from_logs missing = pure (text "test-token-placeholder")
get_token_from_logs unreadable = throw os_error
get_token_from_logs undecodable = throw value_error
get_token_from_logs (holds content) = elim (find_token (lines content)) [
  | none ↦ pure (text "test-token-placeholder")
  | some t ↦ pure t
]
