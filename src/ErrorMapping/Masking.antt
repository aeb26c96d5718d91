-- ===== src/ErrorMapping/Masking.antt =====
-- What `mask_url_hosts` (src/error_mapping.rs) leaves of the hosts in URLs.
use postgresql_trino_gateway.Prelude.{
  ℕ, zero, suc, ◌≤◌, ◌<◌, ◌≡◌, ◌≢◌, refl, ap, subst, ◌∙◌, inl, inr, Bool, true, false, ◌&&◌, ◌||◌,
  ◌==◌, none, some, [], ◌∷◌, ◌++◌, append-nil, append_assoc, arith, if◌then◌else◌, length,
  Option-cases,
}
use postgresql_trino_gateway.Prelude.Text.{
  Text, starts_with, strip_prefix, find, drop_until, is_whitespace,
}
use postgresql_trino_gateway.Prelude.TextLaws.{
  find_sound, absent, find-absent, find-none-absent, absent_local, find-none-append,
  drop_until-suffix,
}
use postgresql_trino_gateway.ErrorMapping.{https, http, trino_mask, is_host_end, mask_url_hosts}
use postgresql_trino_gateway.ErrorMapping.MaskLoop.{
  find_scheme_sound, mask_url_hosts-some, mask_url_hosts-none, find_scheme-https, find_scheme-http,
  find_scheme-none,
}

-- Nothing stands here, or something that ends the host of a URL in a message.
abbrev pub ends_host : Text → Bool
ends_host [] = true
ends_host (c ∷ s) = c == b'/' || c == b')' || c == b',' || is_whitespace c

-- The scheme, `<trino>`, and no more of a host.
abbrev pub masked_here : Text → Text → Bool
masked_here scheme s = elim (strip_prefix (scheme ++ trino_mask) s) [
  | none ↦ false
  | some rest ↦ ends_host rest
]

-- Behind every occurrence of the scheme stands `<trino>` in place of the host.
abbrev pub hosts_masked : Text → Text → Bool
hosts_masked scheme [] = true
hosts_masked scheme (c ∷ s) =
    (if starts_with (c ∷ s) scheme then masked_here scheme (c ∷ s) else true)
    && hosts_masked scheme s

ends_host-drop_until : (s : Text) → ends_host (drop_until is_host_end s) ≡ true
unfolding drop_until is_host_end
ends_host-drop_until [] = refl
ends_host-drop_until (c ∷ s) = ground (arith, ends_host-drop_until s)

-- What begins with a scheme does not end a host.
ends_host-before :
    (b x y : Text) → ends_host (b ++ (b'h' ∷ x)) ≡ true → ends_host (b ++ (b'h' ∷ y)) ≡ true
unfolding is_whitespace
ends_host-before [] x y h = absurd (ground arith)
ends_host-before (c ∷ b) x y h = h

hosts_masked-append :
    (scheme b t : Text)
    → absent scheme b t ≡ true
    → hosts_masked scheme t ≡ true
    → hosts_masked scheme (b ++ t) ≡ true
hosts_masked-append scheme [] t a h = h
hosts_masked-append scheme (c ∷ b) t a h = ground (arith, hosts_masked-append scheme b t)

http_segment_http :
    (t : Text)
    → ends_host t ≡ true
    → hosts_masked http t ≡ true
    → hosts_masked http (http ++ (trino_mask ++ t)) ≡ true
unfolding starts_with strip_prefix
http_segment_http t e h = ground arith

-- A text without the scheme has nothing to mask.
absent-hosts_masked : (scheme s : Text) → find scheme s ≡ none → hosts_masked scheme s ≡ true
absent-hosts_masked scheme s n =
    rw append-nil at (hosts_masked-append scheme s [] (find-none-absent scheme s n) refl)

ends_host-mask_url_hosts : (s : Text) → ends_host s ≡ true → ends_host (mask_url_hosts s) ≡ true
ends_host-mask_url_hosts s h = elim (Option-cases (find https s)) [
  | inr ((before, after), e) ↦
      rw (mask_url_hosts-some s https before after (find_scheme-https s e))
        (ends_host-before before _ _ (subst (λ t. ends_host t ≡ true) (find_sound https s e) h))
  | inl n ↦ elim (Option-cases (find http s)) [
    | inl m ↦ rw (mask_url_hosts-none s (find_scheme-none s n m)) h
    | inr ((before, after), e) ↦
        rw (mask_url_hosts-some s http before after (find_scheme-http s n e))
          (ends_host-before before _ _ (subst (λ t. ends_host t ≡ true) (find_sound http s e) h))
  ]
]

ends_host-masked : (after : Text) → ends_host (mask_url_hosts (drop_until is_host_end after)) ≡ true
ends_host-masked after =
    ends_host-mask_url_hosts (drop_until is_host_end after) (ends_host-drop_until after)

-- The induction on the text's length that the loop needs: every shorter text is masked.
abbrev ShorterMasked : Text → Text → Type 0
ShorterMasked scheme s =
    (t : Text) → length t < length s → hosts_masked scheme (mask_url_hosts t) ≡ true

-- What follows the host in a text without `https://` has none either.
https_free_next :
    (s : Text) {before after : Text}
    → find https s ≡ none
    → find http s ≡ some (before, after)
    → find https (drop_until is_host_end after) ≡ none
https_free_next s {before} {after} n e =
    let (a, q) = drop_until-suffix is_host_end after in
    find-none-append https a (drop_until is_host_end after) (
      subst (λ t. find https t ≡ none) q
        (find-none-append https http after (
          find-none-append https before (http ++ after)
            (subst (λ t. find https t ≡ none) (find_sound http s e) n))))

http_masked_loop :
    (fuel : ℕ) (s : Text)
    → length s ≤ fuel
    → find https s ≡ none
    → hosts_masked http (mask_url_hosts s) ≡ true
http_masked_loop zero [] h n = unfold mask_url_hosts in refl
http_masked_loop zero (c ∷ s) h n = absurd (omega arith)
http_masked_loop (suc fuel) s h n = elim (Option-cases (find http s)) [
  | inl m ↦ rw (mask_url_hosts-none s (find_scheme-none s n m)) (absent-hosts_masked http s m)
  | inr ((before, after), e) ↦
      let f = find_scheme-http s n e in
      let next = drop_until is_host_end after in
      let shorter = (find_scheme_sound s f).1 in
      rw (mask_url_hosts-some s http before after f) (
        hosts_masked-append http before (http ++ (trino_mask ++ mask_url_hosts next))
          (absent_local http before http after (trino_mask ++ mask_url_hosts next) (omega arith)
            (find-absent http s e))
          (http_segment_http (mask_url_hosts next) (ends_host-masked after)
            (http_masked_loop fuel next (omega arith) (https_free_next s n e))))
]

-- In a message with no `https://` URL every `http://` host is masked too.
mask_url_hosts-http : (s : Text) → find https s ≡ none → hosts_masked http (mask_url_hosts s) ≡ true
mask_url_hosts-http s n = http_masked_loop (length s) s (omega arith) n

-- Behind every occurrence of the scheme stands `<trino>`.
abbrev pub scheme_masked : Text → Text → Bool
scheme_masked scheme [] = true
scheme_masked scheme (c ∷ s) =
    (if starts_with (c ∷ s) scheme then starts_with (c ∷ s) (scheme ++ trino_mask) else true)
    && scheme_masked scheme s

scheme_masked-suffix :
    (scheme a x : Text) → scheme_masked scheme (a ++ x) ≡ true → scheme_masked scheme x ≡ true
scheme_masked-suffix scheme [] x h = h
scheme_masked-suffix scheme (c ∷ a) x h = ground (arith, scheme_masked-suffix scheme a x)

unmasked_host : (h : ℕ) (b : Text) → h ≢ b'<' → scheme_masked http (http ++ (h ∷ b)) ≢ true
unfolding starts_with
unmasked_host h b ne e = ground arith

-- `https://` is searched first, so a host of an `http://` URL that stands before the first
-- `https://` URL gets through, unless it begins with `<`.
pub mask_url_hosts_leak :
    (s before after a b : Text) (h : ℕ)
    → find https s ≡ some (before, after)
    → before ≡ a ++ (http ++ (h ∷ b))
    → h ≢ b'<'
    → scheme_masked http (mask_url_hosts s) ≢ true
mask_url_hosts_leak s before after a b h e p ne m =
    let tail = https ++ (trino_mask ++ mask_url_hosts (drop_until is_host_end after)) in
    let out =
      mask_url_hosts-some s https before after (find_scheme-https s e)
      ∙ ap (λ (t : Text). t ++ tail) p
      ∙ append_assoc a (http ++ (h ∷ b)) tail in
    unmasked_host h (b ++ tail) ne (
      scheme_masked-suffix http a (http ++ (h ∷ (b ++ tail)))
        (subst (λ t. scheme_masked http t ≡ true) out m))
