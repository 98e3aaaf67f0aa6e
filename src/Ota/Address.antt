-- ===== src/Ota/Address.antt =====
-- The address of an upgrade in user/ota.c: what is made of a host, a port and a path.
use meter_logger.Prelude.{
  ℕ, zero, suc, ◌+◌, ◌-◌, ◌*◌, ◌≤◌, ◌<◌, ◌≡◌, ◌≢◌, refl, inl, inr, true, false, Option,
  Option-cases, none, some, leb, [], ◌∷◌, ◌++◌, length, length-append, append_assoc, drop-append,
  take-append, take_all, All-append, All-weaken, sym, arith, All,
}
use meter_logger.Prelude.Text.{Text, codes, is_digit, digits_from}
use meter_logger.Prelude.Search.{starts_with, next_index, find, Lacks, find-append, find-Lacks}
use meter_logger.Ota.State.{OtaEnv, Ota}
use meter_logger.Ota.Url.{
  skip_scheme, authority_end, port_digits, port_of, named, authority_at, parse_authority,
  path_start, path_from, parse_path,
}
use meter_logger.Ota.Connect.{start_lookup}
use meter_logger.Ota.Start.{start_path, start_authority, start_url, short_url}
use meter_logger.Ota.Fields.{drop_both}
use meter_logger.Ota.Numbers.{IsDigits, digits_from_le, digit, digits_from-digit, digits_from_nil}

-- The index in a longer text.
abbrev behind : ℕ → Option ℕ → Option ℕ
behind n none = none
behind n (some i) = some (n + i)

find-behind :
    (c : ℕ) (xs ys : Text)
    → Lacks c xs
    → find (c ∷ []) (xs ++ ys) ≡ behind (length xs) (find (c ∷ []) ys)
unfolding find starts_with
find-behind c [] ys h = elim (Option-cases (find (c ∷ []) ys)) [
  | inl e ↦ rw e refl
  | inr f ↦ rw (f.1) (ground arith)
]
find-behind c (x ∷ xs) ys h =
    let ih = find-behind c xs ys h.1 in
    elim (Option-cases (find (c ∷ []) ys)) [
      | inl e ↦ ground (arith, ih, e, h.0)
      | inr f ↦ ground (arith, ih, f.1, h.0)
    ]

port_digits-fits :
    (n : ℕ) (ds : Text)
    → IsDigits ds
    → digits_from n ds ≤ 65535
    → port_digits n ds ≡ some (digits_from n ds)
unfolding port_digits
port_digits-fits n [] h l = rw (digits_from_nil n) refl
port_digits-fits n (d ∷ ds) h l =
    let step = digits_from-digit n d ds h.0 in
    let fits : digits_from (n * 10 + (d - b'0')) ds ≤ 65535 = rw (← step) l in
    let le = digits_from_le (n * 10 + (d - b'0')) ds h.1 in
    let rest = port_digits-fits (n * 10 + (d - b'0')) ds h.1 fits in
    rw (digit d h.0, step) (ground (arith, rest, le, fits))

digits-Lacks : (c : ℕ) (ds : Text) → IsDigits ds → is_digit c ≡ false → Lacks c ds
digits-Lacks c [] h l = _
digits-Lacks c (d ∷ ds) h l = ((λ e. cc (e, l, digit d h.0)), digits-Lacks c ds h.1 l)

positive_port : (n : ℕ) → 0 < n → port_of (some n) ≡ some n
positive_port zero h = absurd (omega (arith, h))
positive_port (suc n) h = refl

-- A character that ends no part of an address.
abbrev pub IsHostChar : ℕ → Type 0
IsHostChar c = (c ≢ b':') × (c ≢ b'/') × (c ≢ b'?') × (c ≢ b'#')

-- The parts of an address that is complete.
pub record IsAddress (host port tail : Text) : Type 0 where
  pub host_named : All IsHostChar host
  pub host_size : (0 < length host) × (length host < 64)
  pub port_plain : IsDigits port
  pub port_size : (0 < length port) × (length port ≤ 5)
  pub port_value : (0 < digits_from 0 port) × (digits_from 0 port ≤ 65535)
  pub tail_whole : Lacks b'#' tail
  pub tail_size : length tail < 127

module _ (host port tail : Text) (h : IsAddress host port tail) where
  abbrev authority : Text
  authority = host ++ b':' ∷ port

  abbrev place : Text
  place = authority ++ b'/' ∷ tail

  host-Lacks : Lacks b':' host × Lacks b'/' host × Lacks b'?' host × Lacks b'#' host
  host-Lacks = (
    All-weaken IsHostChar _ host (λ c p. p.0) h.host_named,
    All-weaken IsHostChar _ host (λ c p. p.1) h.host_named,
    All-weaken IsHostChar _ host (λ c p. p.2) h.host_named,
    All-weaken IsHostChar _ host (λ c p. p.3) h.host_named,
  )

  authority-Lacks : (c : ℕ) → c ≢ b':' → is_digit c ≡ false → Lacks c host → Lacks c authority
  authority-Lacks c n d k =
      All-append _ host (b':' ∷ port) k ((λ e. n (sym e)), digits-Lacks c port h.port_plain d)

  at_slash : find (b'/' ∷ []) place ≡ some (length authority)
  unfolding is_digit
  at_slash =
      find-append b'/' [] authority tail
        (authority-Lacks b'/' (λ e. absurd (omega (arith, e))) refl host-Lacks.1)

  at_question : find (b'?' ∷ []) place ≡ behind (length authority) (find (b'?' ∷ []) (b'/' ∷ tail))
  unfolding is_digit
  at_question =
      find-behind b'?' authority (b'/' ∷ tail)
        (authority-Lacks b'?' (λ e. absurd (omega (arith, e))) refl host-Lacks.2)

  no_fragment : find (b'#' ∷ []) place ≡ none
  unfolding is_digit
  no_fragment = find-Lacks b'#' [] place (
      All-append _ authority (b'/' ∷ tail)
        (authority-Lacks b'#' (λ e. absurd (omega (arith, e))) refl host-Lacks.3)
        ((λ e. absurd (omega (arith, e))), h.tail_whole))

  authority_end-place : authority_end place ≡ length authority
  unfolding authority_end
  authority_end-place =
      let l = length-append authority (b'/' ∷ tail) in
      elim (Option-cases (find (b'?' ∷ []) (b'/' ∷ tail))) [
        | inl e ↦ rw (at_slash, at_question, no_fragment, e) (ground (arith, l))
        | inr f ↦ rw (at_slash, at_question, no_fragment, f.1) (ground (arith, l))
      ]

  port_of-digits : port_of (port_digits 0 port) ≡ some (digits_from 0 port)
  port_of-digits =
      rw (port_digits-fits 0 port h.port_plain h.port_value.1) (positive_port _ h.port_value.0)

  parse_authority-place : parse_authority authority ≡ named host (some (digits_from 0 port))
  unfolding parse_authority authority_at is_digit
  parse_authority-place =
      let colon = find-append b':' [] host port host-Lacks.0 in
      let host_part = take-append host (b':' ∷ port) (length host) refl in
      let port_part = drop_both host (b':' ∷ []) port (length host + 1) refl in
      let once_only = find-Lacks b':' [] port (digits-Lacks b':' port h.port_plain refl) in
      rw (colon, host_part, port_part, once_only, port_of-digits)
        (ground (arith, h.host_size, h.port_size))

  question_later :
      find (b'?' ∷ []) place ≡ behind (length authority) (next_index (find (b'?' ∷ []) tail))
  unfolding find starts_with
  question_later = at_question

  path_start-place :
      path_start (find (b'/' ∷ []) place) (find (b'?' ∷ []) place) (find (b'#' ∷ []) place)
      ≡ some (length authority, false)
  unfolding path_start
  path_start-place = elim (Option-cases (find (b'?' ∷ []) tail)) [
    | inl e ↦ rw (at_slash, question_later, no_fragment, e) refl
    | inr f ↦ rw (at_slash, question_later, no_fragment, f.1) (ground arith)
  ]

  parse_path-place : parse_path place ≡ some (b'/' ∷ tail)
  unfolding parse_path path_from
  parse_path-place =
      let path = drop-append authority (b'/' ∷ tail) (length authority) refl in
      let whole : find (b'#' ∷ []) (b'/' ∷ tail) ≡ none =
        find-Lacks b'#' [] (b'/' ∷ tail) ((λ e. absurd (omega (arith, e))), h.tail_whole) in
      rw (path_start-place, path, whole) (ground (arith, h.tail_size))

-- An http address of a host of at most 63 characters, a port of at most five digits from 1 to 65535 and a path of
-- at most 127 characters without a fragment is taken apart: the host, the port, the header for the host and the
-- path are set, and the name of the host is looked up. A port is printed with at most five characters.
pub start_url-address :
    (e : OtaEnv) (s : Ota) (host port tail : Text)
    → IsAddress host port tail
    → length (e.print_unsigned (digits_from 0 port)) ≤ 5
    → start_url e (short_url (some (codes "http://" ++ (host ++ b':' ∷ (port ++ b'/' ∷ tail))))) s
      ≡ (
        true,
        start_lookup e (record s {
          ota_host = host;
          ota_port = digits_from 0 port;
          ota_host_header = host ++ (b':' ∷ e.print_unsigned (digits_from 0 port));
          ota_path = b'/' ∷ tail;
        }),
      )
unfolding start_url start_authority start_path skip_scheme starts_with
start_url-address e s host port tail h u =
    let l = length-append host (b':' ∷ (port ++ b'/' ∷ tail)) in
    let l' = length-append port (b'/' ∷ tail) in
    let n = length-append host (b':' ∷ e.print_unsigned (digits_from 0 port)) in
    let short : leb 256 (length (codes "http://" ++ (host ++ b':' ∷ (port ++ b'/' ∷ tail))))
        ≡ false =
      ground (arith, l, l', h.host_size, h.port_size, h.tail_size) in
    let joined = append_assoc host (b':' ∷ port) (b'/' ∷ tail) in
    let cut = take-append (authority host port tail h) (b'/' ∷ tail) _ refl in
    let whole =
      take_all (host ++ (b':' ∷ e.print_unsigned (digits_from 0 port))) 71
        (omega (arith, n, u, h.host_size)) in
    rw
      (
        short,
        ← joined,
        authority_end-place host port tail h,
        cut,
        parse_authority-place host port tail h,
        parse_path-place host port tail h,
        whole,
      )
      refl
