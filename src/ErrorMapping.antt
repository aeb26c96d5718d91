-- ===== src/ErrorMapping.antt =====
-- src/error_mapping.rs: SQLSTATE classification and sanitising of Trino error messages.
pub mod MaskLoop
pub mod Masking
pub mod Bounds
use postgresql_trino_gateway.Prelude.{
  ℕ, zero, suc, ◌-◌, ◌≡◌, Bool, true, false, ◌&&◌, ◌||◌, Option, none, some, List, [], ◌∷◌, ◌++◌,
  leb, ◌==◌, if◌then◌else◌, is_some, length, is_empty,
}
use postgresql_trino_gateway.Prelude.Text.{
  Text, codes, byte_len, is_char_boundary, truncate, starts_with, ends_with, find, contains,
  drop_until, is_whitespace, trim_start, trim, to_ascii_uppercase,
}

-- pgwire's `ErrorInfo`, the fields that the gateway sets.
pub record ErrorInfo : Type 0 where
  pub severity : Text
  pub code : Text
  pub message : Text

abbrev pub max_client_error_len : ℕ
max_client_error_len = 512

-- U+2026, three bytes of UTF-8.
abbrev pub ellipsis : ℕ
ellipsis = 0x2026

abbrev pub https : Text
https = codes "https://"

abbrev pub http : Text
http = codes "http://"

abbrev pub trino_mask : Text
trino_mask = codes "<trino>"

-- `while cut > 0 && !s.is_char_boundary(cut) { cut -= 1 }`: ends at 0 at the latest.
unfoldable pub floor_boundary : Text → ℕ → ℕ
floor_boundary s zero = 0
floor_boundary s (suc cut) =
    let lower = floor_boundary s cut in if is_char_boundary s (suc cut) then suc cut else lower

unfoldable pub truncate_with_ellipsis : Text → ℕ → Text
unfolding floor_boundary
truncate_with_ellipsis s max =
    if leb (byte_len s) max then s else truncate s (floor_boundary s (max - 3)) ++ ellipsis ∷ []

looks_like_package : Text → Bool
looks_like_package prefix =
    starts_with prefix (codes "io.")
    || starts_with prefix (codes "com.")
    || starts_with prefix (codes "java.")
    || starts_with prefix (codes "org.")

looks_like_exception : Text → Bool
looks_like_exception prefix =
    ends_with prefix (codes "Exception") || ends_with prefix (codes "Error")

-- `none` where the code returns the very slice that it was given.
unfoldable pub strip_java_exception_prefix : Text → Option Text
unfolding looks_like_package looks_like_exception
strip_java_exception_prefix s = elim (find (codes ": ") s) [
  | none ↦ none
  | some (prefix, behind) ↦
      if looks_like_package prefix && looks_like_exception prefix
      then some (trim_start behind)
      else none
]

-- The `loop` of `sanitise_for_client`; a round that strips leaves a shorter text.
unfoldable pub strip_prefixes : ℕ → Text → Text
strip_prefixes zero s = s
strip_prefixes (suc fuel) s = elim (strip_java_exception_prefix s) [
  | none ↦ s
  | some next ↦ strip_prefixes fuel next
]

unfoldable pub is_host_end : ℕ → Bool
is_host_end c = c == b'/' || c == b')' || c == b',' || is_whitespace c

-- The `for scheme in SCHEMES` of one round: the scheme, and the texts before and behind it.
unfoldable pub find_scheme : Text → Option (Text × Text × Text)
find_scheme rest = elim (find https rest) [
  | some (before, after) ↦ some (https, before, after)
  | none ↦ elim (find http rest) [ some (before, after) ↦ some (http, before, after) | none ↦ none ]
]

-- The `while` loop of `mask_url_hosts`. With fuel for each code point of `rest` it never runs out.
unfoldable pub mask_loop : ℕ → Text → Text → Text
mask_loop zero rest out = out
mask_loop (suc fuel) rest out = elim (find_scheme rest) [
  | none ↦ out ++ rest
  | some (scheme, before, after) ↦
      mask_loop fuel (drop_until is_host_end after) (out ++ (before ++ (scheme ++ trino_mask)))
]

unfoldable pub mask_url_hosts : Text → Text
unfolding mask_loop find_scheme
mask_url_hosts s = mask_loop (length s) s []

-- `msg.find("\n\tat ").or_else(|| msg.find("\n  at "))`, and what stands before it.
unfoldable pub cut_stack_trace : Text → Text
cut_stack_trace msg = elim (find (10 ∷ 9 ∷ codes "at ") msg) [
  | some (before, _) ↦ before
  | none ↦ elim (find (10 ∷ codes "  at ") msg) [ some (before, _) ↦ before | none ↦ msg ]
]

unfoldable pub sanitise_for_client : Text → Text
unfolding cut_stack_trace strip_prefixes mask_url_hosts truncate_with_ellipsis
sanitise_for_client msg =
    let truncated = cut_stack_trace msg in
    let prefix_stripped = strip_prefixes (length truncated) truncated in
    truncate_with_ellipsis (trim (mask_url_hosts prefix_stripped)) max_client_error_len

-- "line <N>:<N>: ...", in upper case.
unfoldable pub is_syntax_position : Text → Bool
is_syntax_position upper = starts_with upper (codes "LINE ") && elim (find (codes ":") upper) [
  | none ↦ false
  | some (_, behind) ↦ is_some (find (codes ":") behind)
]

unfoldable pub sqlstate_of : Text → Text
unfolding is_syntax_position
sqlstate_of upper =
    if contains upper (codes "SYNTAX_ERROR") || is_syntax_position upper
    then codes "42601"
    else if contains upper (codes "TABLE_NOT_FOUND") || contains upper (codes "DOES NOT EXIST")
    then codes "42P01"
    else if contains upper (codes "COLUMN_NOT_FOUND") || contains upper (codes "CANNOT BE RESOLVED")
    then codes "42703"
    else if contains upper (codes "TYPE_MISMATCH")
    then codes "42846"
    else if contains upper (codes "PERMISSION_DENIED") || contains upper (codes "ACCESS DENIED")
    then codes "42501"
    else if contains upper (codes "DIVISION_BY_ZERO")
    then codes "22012"
    else codes "42000"

unfoldable pub trino_error_to_pg : Text → ErrorInfo
unfolding sqlstate_of sanitise_for_client
trino_error_to_pg error_msg = record {
  severity = codes "ERROR";
  code = sqlstate_of (to_ascii_uppercase error_msg);
  message = sanitise_for_client error_msg;
}
