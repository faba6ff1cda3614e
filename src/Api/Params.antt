-- ===== src/Api/Params.antt =====
-- scheduler/internal/api/handlers.go: `r.URL.Query().Get`, by which the handlers read their
-- parameters, and how the URL of a request is cut.
use edge_sched.Prelude.{
  ℕ, ◌+◌, ◌-◌, ◌*◌, ◌==◌, leb, ◌&&◌, if◌then◌else◌, any, List, [], ◌∷◌, Option, none, some,
}
use edge_sched.Prelude.Bytes.{Bytes, bytes, str_eq}
use edge_sched.Prelude.Split.{split, split_two}
use edge_sched.Api.Predict.{Reader, Query}

-- `strings.Cut`: what stands before and after the first separator.
abbrev pub before : Bytes → Option (Bytes × Bytes) → Bytes
before s none = s
before s (some (a, b)) = a

abbrev pub after : Option (Bytes × Bytes) → Bytes
after none = []
after (some (a, b)) = b

-- `URL.RawQuery`: without the fragment, what follows the first question mark.
unfoldable pub raw_query : Bytes → Bytes
raw_query url = after (split_two b'?' (before url (split_two b'#' url)))

-- A hexadecimal digit.
abbrev pub unhex : ℕ → Option ℕ
unhex c =
    if leb b'0' c && leb c b'9'
    then some (c - b'0')
    else if leb b'a' c && leb c b'f'
    then some (c - b'a' + 10)
    else if leb b'A' c && leb c b'F'
    then some (c - b'A' + 10)
    else none

abbrev pub push : ℕ → Option Bytes → Option Bytes
push c none = none
push c (some s) = some (c ∷ s)

abbrev pub push_hex : Option ℕ → Option ℕ → Option Bytes → Option Bytes
push_hex (some a) (some b) s = push (a * 16 + b) s
push_hex _ _ s = none

-- A plus sign stands for a space.
abbrev pub plain : ℕ → ℕ
plain c = if c == b'+' then 32 else c

-- `url.QueryUnescape`; a percent sign without two digits is an error.
unfoldable pub unescape : Bytes → Option Bytes
unescape [] = some []
unescape (c ∷ []) = if c == b'%' then none else some (plain c ∷ [])
unescape (c ∷ d ∷ []) =
    let rest = unescape (d ∷ []) in if c == b'%' then none else push (plain c) rest
unescape (c ∷ d ∷ e ∷ s) =
    let rest = unescape (d ∷ e ∷ s) in
    let escaped = push_hex (unhex d) (unhex e) (unescape s) in
    if c == b'%' then escaped else push (plain c) rest

abbrev pub pair_of : Option Bytes → Option Bytes → Option (Bytes × Bytes)
pair_of (some k) (some v) = some (k, v)
pair_of _ _ = none

-- One piece of the query; one that is empty, has a semicolon or a bad escape is left out.
unfoldable pub parse_pair : Bytes → Option (Bytes × Bytes)
parse_pair [] = none
parse_pair (c ∷ s) =
    let cut = split_two b'=' (c ∷ s) in
    if any (λ b. b == b';') (c ∷ s)
    then none
    else pair_of (unescape (before (c ∷ s) cut)) (unescape (after cut))

abbrev pub value_or : Bytes → Option (Bytes × Bytes) → Bytes → Bytes
value_or key none rest = rest
value_or key (some (k, v)) rest = if str_eq k key then v else rest

-- The first value of a key among pieces, or the empty text.
unfoldable pub first_value : Bytes → List Bytes → Bytes
first_value key [] = []
first_value key (p ∷ ps) = value_or key (parse_pair p) (first_value key ps)

unfoldable pub query_get : Bytes → Bytes → Bytes
query_get key query = first_value key (split b'&' query)

-- What the handlers read of a URL.
unfoldable pub request_query : Bytes → Reader → ℕ → Query
request_query url body channel = record {
  latency_budget = query_get (bytes "latency_budget_ms") (raw_query url);
  engine = query_get (bytes "engine") (raw_query url);
  body = body;
  channel = channel;
}
