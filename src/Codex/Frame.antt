-- ===== src/Codex/Frame.antt =====
-- src/limit_halo/codex_protocol.py, `_load_object`: a frame is measured and its nesting is bounded
-- before it is decoded. The decoder, with its hook that rejects duplicate keys, is the parameter
-- `loads`.
pub mod Nesting
use limit_halo.Prelude.{
  ℕ, Bool, true, false, ◌||◌, not, Option, none, some, List, [], ◌∷◌, ◌==◌, if◌then◌else◌, leb,
  length,
}
use limit_halo.Prelude.Int.{ℤ, pos, negsuc, ◌+ℤ◌, ltb_ℤ}
use limit_halo.Prelude.Result.{Result, ok, err, protocol_failure, ◌>>=◌, ◌>>◌, raise_if}
use limit_halo.Json.{Value, Fields}
use limit_halo.Codex.{as_object, max_server_line, max_json_nesting}

-- The state of the scan: the depth, whether it is within a text, and after a backslash.
pub record Scan : Type 0 where
  pub depth : ℤ
  pub in_string : Bool
  pub escaped : Bool

abbrev pub scan_start : Scan
scan_start = record { depth = pos 0; in_string = false; escaped = false }

-- A byte within a text.
scan_text : Scan → ℕ → Scan
scan_text s c =
    if s.escaped
    then record s { escaped = false }
    else if c == b'\\'
    then record s { escaped = true }
    else if c == b'"'
    then record s { in_string = false }
    else s

abbrev is_open : ℕ → Bool
is_open c = c == b'{' || c == b'['

abbrev is_close : ℕ → Bool
is_close c = c == b'}' || c == b']'

scan_plain : Scan → ℕ → Result Scan
unfolding ◌+ℤ◌
scan_plain s c =
    if c == b'"'
    then ok (record s { in_string = true })
    else if is_open c
    then (if ltb_ℤ (pos max_json_nesting) (s.depth +ℤ pos 1)
        then err (protocol_failure "app-server JSON nesting limit exceeded")
        else ok (record s { depth = s.depth +ℤ pos 1 }))
    else if is_close c
    then ok (record s { depth = s.depth +ℤ negsuc 0 })
    else ok s

unfoldable pub scan_byte : Scan → ℕ → Result Scan
unfolding scan_text scan_plain
scan_byte s c = if s.in_string then ok (scan_text s c) else scan_plain s c

unfoldable pub scan_bytes : Scan → List ℕ → Result Scan
unfolding scan_byte
scan_bytes s [] = ok s
scan_bytes s (c ∷ cs) = scan_byte s c >>= λ next. scan_bytes next cs

abbrev decoded_frame : Option Value → Result Value
decoded_frame none = err (protocol_failure "malformed app-server JSON")
decoded_frame (some v) = ok v

module _ (loads : List ℕ → Option Value) where
  unfoldable pub load_object : List ℕ → Result Fields
  unfolding scan_bytes
  load_object frame = do
    raise_if (not (leb 1 (length frame)) || not (leb (length frame) max_server_line))
        (protocol_failure "invalid app-server frame size")
    scan ← scan_bytes scan_start frame
    parsed ← decoded_frame (loads frame)
    as_object "app-server frame is not an object" parsed
