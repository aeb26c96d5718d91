-- ===== src/Examples/ErrorMapping.antt =====
-- Error messages through the sanitiser.
use postgresql_trino_gateway.Prelude.{◌≤◌, ◌<◌, ◌≡◌, ◌≢◌, refl, true, none, some, [], length, arith}
use postgresql_trino_gateway.Prelude.Text.{
  Text, codes, byte_len, find, drop_until, contains, to_ascii_uppercase, starts_with, trim,
  ends_with, is_whitespace,
}
use postgresql_trino_gateway.ErrorMapping.{
  trino_error_to_pg, mask_url_hosts, max_client_error_len, https, http, is_host_end,
  strip_java_exception_prefix, strip_prefixes,
}
use postgresql_trino_gateway.ErrorMapping.Masking.{scheme_masked, mask_url_hosts_leak}
use postgresql_trino_gateway.ErrorMapping.Bounds.{sanitise_for_client-le, strip_prefixes_fixpoint}

abbrev wrapped : Text
wrapped =
    codes
      "io.trino.spi.TrinoException: java.lang.RuntimeException: line 1:8: Column 'x' cannot be resolved"

abbrev two_urls : Text
two_urls = codes "from https://a:8443/v1 to http://b/v2"

abbrev leaking : Text
leaking = codes "http://b/v2 after https://a/v1"

wrapped_maps :
    ((trino_error_to_pg wrapped).code ≡ codes "42703")
    × ((trino_error_to_pg wrapped).message ≡ codes "line 1:8: Column 'x' cannot be resolved")
unfolding trino_error_to_pg contains to_ascii_uppercase starts_with trim strip_java_exception_prefix
    ends_with
wrapped_maps = (refl, refl)

two_urls_masked : mask_url_hosts two_urls ≡ codes "from https://<trino>/v1 to http://<trino>/v2"
unfolding mask_url_hosts find drop_until is_host_end is_whitespace
two_urls_masked = refl

leaking_masked : mask_url_hosts leaking ≡ codes "http://b/v2 after https://<trino>/v1"
unfolding mask_url_hosts find drop_until is_host_end is_whitespace
leaking_masked = refl

sanitise_for_client-le_example : byte_len (trino_error_to_pg wrapped).message ≤ max_client_error_len
sanitise_for_client-le_example = sanitise_for_client-le wrapped

strip_prefixes_fixpoint_example :
    strip_java_exception_prefix (strip_prefixes (length wrapped) wrapped) ≡ none
strip_prefixes_fixpoint_example = strip_prefixes_fixpoint wrapped

http_only : find https (codes "to http://b/v2") ≡ none
unfolding find
http_only = refl

leaking_found : find https leaking ≡ some (codes "http://b/v2 after ", codes "a/v1")
unfolding find
leaking_found = refl

mask_url_hosts_leak_example : scheme_masked http (mask_url_hosts leaking) ≢ true
mask_url_hosts_leak_example =
    mask_url_hosts_leak leaking (codes "http://b/v2 after ") (codes "a/v1") [] (codes "/v2 after ")
      b'b' leaking_found refl (λ e. omega arith)

seven_bytes_short : 7 < byte_len (codes "héllo wörld")
seven_bytes_short = omega arith
