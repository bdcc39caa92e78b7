-- ===== src/Claude/Frame.antt =====
-- src/limit_halo/claude_protocol.py: the framing of a broker line and the strict readers of the
-- values in it. A line is a list of bytes.
use Prim.Native.Char.{code}
use limit_halo.Prelude.{
  ℕ, ◌+◌, ◌*◌, ◌-◌, String, Bool, true, false, ◌||◌, ◌&&◌, not, List, [], ◌∷◌, ◌==◌, if◌then◌else◌,
  length, leb, all, any, mem, same_set,
}
use limit_halo.Prelude.Int.{pos}
use limit_halo.Prelude.Result.{Result, ok, err, broker_failure, type_error, ◌>>=◌, ◌>>◌, raise_if}
use limit_halo.Json.{Value, Fields, null, int, str, arr, obj, get, keys}

-- The code points of a text.
abbrev pub codes : String → List ℕ
codes String.[] = []
codes (String.◌∷◌ c s) = code c ∷ codes s

abbrev pub max_line_bytes : ℕ
max_line_bytes = 8192

abbrev is_hex : ℕ → Bool
is_hex c = (leb b'0' c && leb c b'9') || (leb b'a' c && leb c b'f')

unfoldable pub re_full_hex : String → Bool
re_full_hex value = length (codes value) == 32 && all is_hex (codes value)

-- The line without one "\r\n" or "\n" at its end.
unfoldable pub strip_newline : List ℕ → List ℕ
strip_newline [] = []
strip_newline (c ∷ []) = if c == 10 then [] else c ∷ []
strip_newline (c ∷ d ∷ []) =
    if c == 13 && d == 10 then [] else if d == 10 then c ∷ [] else c ∷ d ∷ []
strip_newline (c ∷ d ∷ e ∷ rest) = c ∷ strip_newline (d ∷ e ∷ rest)

abbrev is_empty : List ℕ → Bool
is_empty [] = true
is_empty _ = false

-- The frame checks, and the body that is decoded.
unfoldable pub frame_body : List ℕ → String → Result (List ℕ)
unfolding re_full_hex
frame_body line request_id = do
  raise_if (not (re_full_hex request_id) || is_empty line || not (leb (length line) max_line_bytes))
      (broker_failure "broker framing violation")
  let body = strip_newline line
  raise_if (is_empty body || any (λ c. c == 10) body || any (λ c. c == 13) body)
      (broker_failure "broker framing violation")
  ok body

unfoldable pub exact_keys : Fields → List String → Result (Unit {0})
exact_keys value expected =
    raise_if (not (same_set (keys value) expected)) (broker_failure "broker schema mismatch")

unfoldable pub strict_int : Value → ℕ → ℕ → Result ℕ
strict_int (int (pos n)) low high =
    if leb low n && leb n high then ok n else err (broker_failure "invalid broker integer")
strict_int _ low high = err (broker_failure "invalid broker integer")

-- `isinstance(value, dict)`
unfoldable pub need_object : String → Value → Result Fields
need_object problem (obj fs) = ok fs
need_object problem _ = err (broker_failure problem)

-- `value in names`, for a set of texts: a list or a dictionary has no hash.
unfoldable pub in_set : Value → List String → Result Bool
in_set (str s) names = ok (mem s names)
in_set (arr _) names = err (type_error "unhashable type: 'list'")
in_set (obj _) names = err (type_error "unhashable type: 'dict'")
in_set _ names = ok false

is_digit : ℕ → Bool
is_digit c = leb b'0' c && leb c b'9'

-- `int(text)` of a text of decimal digits.
unfoldable pub decimal : ℕ → List ℕ → ℕ
decimal n [] = n
decimal n (c ∷ cs) = decimal (n * 10 + (c - b'0')) cs

abbrev leading_zero : List ℕ → Bool
leading_zero (c ∷ d ∷ cs) = c == b'0'
leading_zero _ = false

unfoldable pub is_file_time : Value → Bool
unfolding is_digit decimal
is_file_time (str text) =
    all is_digit (codes text)
    && leb 1 (length (codes text))
    && leb (length (codes text)) 20
    && not (leading_zero (codes text))
    && leb (decimal 0 (codes text)) 18_446_744_073_709_551_615
is_file_time _ = false

-- `credentialVersion`: null, or a file time and a size.
unfoldable pub check_credential : Value → Result (Unit {0})
unfolding exact_keys strict_int is_file_time
check_credential null = ok tt
check_credential (obj version) = do
  exact_keys version ("credentialLastWrittenFileTime" ∷ "credentialBlobSize" ∷ [])
  raise_if (not (is_file_time (get "credentialLastWrittenFileTime" version)))
      (broker_failure "credential version malformed")
  size ← strict_int (get "credentialBlobSize" version) 0 65_536
  ok tt
check_credential _ = err (broker_failure "credential version malformed")
