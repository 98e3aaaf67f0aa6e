-- ===== src/Ota/Url.antt =====
-- user/ota.c: the address in `start_ota_update`, on the text before its NUL.
use meter_logger.Prelude.{
  ℕ, zero, suc, ◌+◌, ◌-◌, ◌*◌, Bool, true, false, ◌&&◌, ◌||◌, Option, none, some, if◌then◌else◌,
  ltb, leb, ◌==◌, [], ◌∷◌, length, take, drop,
}
use meter_logger.Prelude.Text.{Text, codes, is_digit}
use meter_logger.Prelude.Search.{starts_with, find}

-- `strstr(p, needle) != NULL`
abbrev pub is_found : Option ℕ → Bool
is_found none = false
is_found (some i) = true

-- The address behind its scheme, which is HTTP.
unfoldable pub skip_scheme : Text → Option Text
skip_scheme url =
    if starts_with (codes "http://") url
    then some (drop 7 url)
    else if starts_with (codes "https://") url
    then none
    else if is_found (find (codes "://") url)
    then none
    else some url

-- A delimiter that stands before `end` is the new end.
abbrev pub earlier : Option ℕ → ℕ → ℕ
earlier none end = end
earlier (some i) end = if ltb i end then i else end

-- The length of the authority.
unfoldable pub authority_end : Text → ℕ
authority_end p =
    let slash = find (codes "/") p in
    let question = find (codes "?") p in
    let fragment = find (codes "#") p in
    earlier fragment (earlier question (earlier slash (length p)))

-- The digits of the port from `value` on; none is another character or a port above 65535.
unfoldable pub port_digits : ℕ → Text → Option ℕ
unfolding is_digit
port_digits value [] = some value
port_digits value (c ∷ s) =
    let next = value * 10 + (c - b'0') in
    let rest = port_digits next s in
    if is_digit c then (if ltb 65535 next then none else rest) else none

-- The port, which is not 0.
abbrev pub port_of : Option ℕ → Option ℕ
port_of none = none
port_of (some zero) = none
port_of (some (suc n)) = some (suc n)

-- What the authority names; a host without its port is stored before the port is refused.
pub data Authority : Type 0 where
  refused : Authority
  bad_port : Text → Authority
  named : Text → Option ℕ → Authority

abbrev pub with_port : Text → Option ℕ → Authority
with_port host none = bad_port host
with_port host (some port) = named host (some port)

unfoldable pub authority_at : Text → Option ℕ → Authority
unfolding port_digits
authority_at authority none =
    if length authority == 0 || leb 64 (length authority) then refused else named authority none
authority_at authority (some colon) =
    let host = take colon authority in
    let port = drop (colon + 1) authority in
    if is_found (find (codes ":") port)
    then refused
    else if colon == 0 || (leb 64 colon || (length port == 0 || ltb 5 (length port)))
    then refused
    else with_port host (port_of (port_digits 0 port))

unfoldable pub parse_authority : Text → Authority
unfolding authority_at
parse_authority authority = authority_at authority (find (codes ":") authority)

abbrev pub is_before : ℕ → Option ℕ → Bool
is_before i none = true
is_before i (some j) = ltb i j

-- Where the path starts, with whether it starts by the query.
unfoldable pub path_start : Option ℕ → Option ℕ → Option ℕ → Option (ℕ × Bool)
path_start none none fragment = none
path_start none (some question) fragment =
    if is_before question fragment then some (question, true) else none
path_start (some slash) none fragment =
    if is_before slash fragment then some (slash, false) else none
path_start (some slash) (some question) fragment =
    if is_before slash fragment && ltb slash question
    then some (slash, false)
    else if is_before question fragment
    then some (question, true)
    else none

abbrev pub up_to : Option ℕ → Text → Text
up_to none s = s
up_to (some i) s = take i s

-- The path from where it starts; none is a path that is too long.
unfoldable pub path_from : Text → Option (ℕ × Bool) → Option Text
path_from p none = some (codes "/")
path_from p (some (i, is_query)) =
    let path = up_to (find (codes "#") (drop i p)) (drop i p) in
    let whole = if is_query then b'/' ∷ path else path in
    if leb 128 (length whole) then none else some whole

unfoldable pub parse_path : Text → Option Text
unfolding path_start path_from
parse_path p =
    path_from p (path_start (find (codes "/") p) (find (codes "?") p) (find (codes "#") p))
