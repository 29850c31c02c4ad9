-- ===== src/Tunnel/Client/Platform.antt =====
-- What `Headers` and `Response` of the platform make of the fields of a response of the tunnel,
-- packages/tunnel/src/client.ts.
use teekit.Common.{
  ℕ, ◌%◌, Bool, true, false, not, ◌&&◌, ◌||◌, none, some, List, [], ◌∷◌, ◌++◌, map, Text, codes,
  ◌==◌, leb, if◌then◌else◌,
}
use teekit.Result.{Result, ok, err, ◌>>=◌, type_error}
use teekit.Intel.Defs.{is_empty, is_none}
use teekit.Tunnel.Message.{HttpResponse, HeaderValue, one, many}
use teekit.Tunnel.Client.{HeaderCall, append_header, set_header, SyntheticResponse}

unfoldable pub all_of {ℓ} : {A : Type ℓ} → (A → Bool) → List A → Bool
all_of test [] = true
all_of test (x ∷ xs) = let rest = all_of test xs in test x && rest

abbrev is_between : (low high : ℕ) → ℕ → Bool
is_between low high c = leb low c && leb c high

unfoldable pub is_one_of : Text → ℕ → Bool
is_one_of [] c = false
is_one_of (d ∷ chars) c = let rest = is_one_of chars c in d == c || rest

-- A character of a token: a letter, a digit or one of these marks.
unfoldable pub is_token_char : ℕ → Bool
unfolding is_one_of
is_token_char c =
    is_between b'a' b'z' c
    || is_between b'A' b'Z' c
    || is_between b'0' b'9' c
    || is_one_of (codes "!#$%&'*+-.^_`|~") c

-- A header's name is a token.
unfoldable pub is_header_name : Text → Bool
unfolding all_of is_token_char
is_header_name name = not (is_empty name) && all_of is_token_char name

-- Tab, line feed, carriage return and space are taken off both ends of a value.
abbrev is_whitespace : ℕ → Bool
is_whitespace c = c == 9 || c == 10 || c == 13 || c == 32

unfoldable pub strip_leading : Text → Text
strip_leading [] = []
strip_leading (c ∷ value) =
    let rest = strip_leading value in if is_whitespace c then rest else c ∷ value

unfoldable pub strip_trailing : Text → Text
strip_trailing [] = []
strip_trailing (c ∷ value) =
    let rest = strip_trailing value in if is_empty rest && is_whitespace c then [] else c ∷ rest

-- A value has characters of one byte, and inside it no NUL, line feed or carriage return.
unfoldable pub is_header_value : Text → Bool
unfolding all_of strip_leading strip_trailing
is_header_value value =
    all_of (λ c. leb c 255) value
    && all_of (λ c. not (c == 0 || c == 10 || c == 13)) (strip_trailing (strip_leading value))

-- Tab, space, visible characters, and bytes from 128.
unfoldable pub is_reason_phrase : Text → Bool
unfolding all_of
is_reason_phrase = all_of (λ c. c == 9 || is_between 32 126 c || is_between 128 255 c)

-- The calls that rebuild the headers of a response.
unfoldable pub header_calls : List (Text × HeaderValue) → List HeaderCall
header_calls [] = []
header_calls ((name, one value) ∷ headers) = set_header name value ∷ header_calls headers
header_calls ((name, many values) ∷ headers) =
    map (append_header name) values ++ header_calls headers

-- A call of `append` or `set` throws if the name or the value is none of a header.
unfoldable pub is_valid_call : HeaderCall → Bool
unfolding is_header_name is_header_value
is_valid_call (append_header name value) = is_header_name name && is_header_value value
is_valid_call (set_header name value) = is_header_name name && is_header_value value

unfoldable pub build_headers : List HeaderCall → Result (List HeaderCall)
unfolding all_of is_valid_call
build_headers calls = if all_of is_valid_call calls then ok calls else err type_error

abbrev pub is_null_body_status : ℕ → Bool
is_null_body_status status = status == 101 || status == 204 || status == 205 || status == 304

-- `new Response(body, init)` takes the status as a number of 16 bits. It throws if that is not between
-- 200 and 599, if the status text is no reason phrase, or if there is a body and the status takes none.
unfoldable pub new_response : SyntheticResponse → Result SyntheticResponse
unfolding is_reason_phrase
new_response response =
    let status = response.status % 65536 in
    if leb 200 status
      && leb status 599
      && is_reason_phrase response.status_text
      && (is_none response.body || not (is_null_body_status status))
    then ok (record response { status = status })
    else err type_error

-- The arguments of `new Response`, if `headers` are those that were built.
abbrev pub synthetic_response : HttpResponse → List HeaderCall → SyntheticResponse
synthetic_response response headers = record {
  body = if response.status == 204 then none else some response.body;
  status = response.status;
  status_text = response.status_text;
  headers = headers;
}

unfoldable pub rebuild_response : HttpResponse → Result SyntheticResponse
unfolding header_calls build_headers new_response
rebuild_response response = do
  headers ← build_headers (header_calls response.headers)
  new_response (synthetic_response response headers)
