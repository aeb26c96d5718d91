-- ===== src/ErrorMapping/Bounds.antt =====
-- What sanitising leaves of a message's length and of its exception wrappers
-- (src/error_mapping.rs, `truncate_with_ellipsis` and the loop of `sanitise_for_client`).
use postgresql_trino_gateway.Prelude.{
  ℕ, zero, suc, ◌-◌, ◌≤◌, ◌<◌, ◌≡◌, refl, ap, inl, inr, true, false, none, some, [], ◌∷◌, ◌++◌,
  arith, leb, ltb, length, length-append, Option-cases, Bool-cases,
}
use postgresql_trino_gateway.Prelude.Text.{
  Text, byte_len, byte_len-append, utf8_len, truncate, is_char_boundary, trim, find, codes,
}
use postgresql_trino_gateway.Prelude.TextLaws.{find_sound, byte_len-truncate, length-trim_start}
use postgresql_trino_gateway.ErrorMapping.{
  floor_boundary, truncate_with_ellipsis, ellipsis, sanitise_for_client, max_client_error_len,
  strip_java_exception_prefix, strip_prefixes, cut_stack_trace, mask_url_hosts, trino_error_to_pg,
}

boundary_zero : (s : Text) → is_char_boundary s 0 ≡ true
unfolding is_char_boundary
boundary_zero [] = refl
boundary_zero (c ∷ s) = refl

record IsFloor (s : Text) (cut r : ℕ) : Type 0 where
  below : r ≤ cut
  boundary : is_char_boundary s r ≡ true

floor_boundary-IsFloor : (s : Text) (cut : ℕ) → IsFloor s cut (floor_boundary s cut)
unfolding floor_boundary
floor_boundary-IsFloor s zero = record { below = omega arith; boundary = boundary_zero s }
floor_boundary-IsFloor s (suc cut) = ground (arith, floor_boundary-IsFloor s cut)

floor_boundary_greatest :
    (s : Text) (cut i : ℕ) → i ≤ cut → is_char_boundary s i ≡ true → i ≤ floor_boundary s cut
unfolding floor_boundary
floor_boundary_greatest s zero i h b = omega arith
floor_boundary_greatest s (suc cut) i h b = ground (arith, floor_boundary_greatest s cut i)

byte_len-truncate_boundary :
    (s : Text) (i : ℕ) → is_char_boundary s i ≡ true → byte_len (truncate s i) ≡ i
unfolding is_char_boundary truncate
byte_len-truncate_boundary [] i h = ground arith
byte_len-truncate_boundary (c ∷ s) i h =
    ground (arith, byte_len-truncate_boundary s (i - utf8_len c))

truncate_prefix : (s : Text) (n : ℕ) → (rest : Text) × (s ≡ truncate s n ++ rest)
unfolding truncate
truncate_prefix [] n = ([], refl)
truncate_prefix (c ∷ s) n = elim (Bool-cases (ltb n (utf8_len c))) [
  | inl e ↦ (c ∷ s, rw e)
  | inr e ↦
      let (rest, p) = truncate_prefix s (n - utf8_len c) in
      (rest, rw e (ap (λ (t : Text). c ∷ t) p))
]

-- A message that exceeds `max` bytes becomes its longest prefix, ended at a character boundary,
-- that leaves three bytes for the ellipsis, and the ellipsis.
truncate_with_ellipsis_longest :
    (s : Text) (max : ℕ)
    → max < byte_len s
    → (kept rest : Text) × (s ≡ kept ++ rest)
      × (truncate_with_ellipsis s max ≡ kept ++ ellipsis ∷ [])
      × (byte_len kept ≤ max - 3)
      × ((i : ℕ) → i ≤ max - 3 → is_char_boundary s i ≡ true → i ≤ byte_len kept)
unfolding truncate_with_ellipsis
truncate_with_ellipsis_longest s max h =
    let cut = floor_boundary s (max - 3) in
    let f = floor_boundary-IsFloor s (max - 3) in
    let exact = byte_len-truncate_boundary s cut f.boundary in
    let (rest, p) = truncate_prefix s cut in
    let long : leb (byte_len s) max ≡ false = ground arith in
    (
      truncate s cut,
      rest,
      p,
      rw long,
      omega (arith, exact, f.below),
      λ i low b. omega (arith, exact, floor_boundary_greatest s (max - 3) i low b),
    )

truncate_with_ellipsis-le :
    (s : Text) (max : ℕ) → 3 ≤ max → byte_len (truncate_with_ellipsis s max) ≤ max
unfolding truncate_with_ellipsis
truncate_with_ellipsis-le s max h =
    let cut = floor_boundary s (max - 3) in
    ground (
      arith,
      byte_len-truncate s cut,
      floor_boundary-IsFloor s (max - 3),
      byte_len-append (truncate s cut) (ellipsis ∷ []),
    )

-- Whatever Trino says, the client gets at most 512 bytes.
pub sanitise_for_client-le :
    (msg : Text) → byte_len (trino_error_to_pg msg).message ≤ max_client_error_len
unfolding trino_error_to_pg sanitise_for_client
sanitise_for_client-le msg =
    truncate_with_ellipsis-le
      (trim (mask_url_hosts (strip_prefixes (length (cut_stack_trace msg)) (cut_stack_trace msg))))
      512 (omega arith)

-- A round that strips a wrapper leaves a shorter text.
strip-lt : (s next : Text) → strip_java_exception_prefix s ≡ some next → length next < length s
unfolding strip_java_exception_prefix
strip-lt s next h = elim (Option-cases (find (codes ": ") s)) [
  | inl e ↦ ground arith
  | inr ((before, after), e) ↦ ground (
    arith,
    ap (length {0}) (find_sound (codes ": ") s e),
    length-append before (codes ": " ++ after),
    length-append (codes ": ") after,
    length-trim_start after,
  )
]

strip_prefixes_done :
    (fuel : ℕ) (s : Text)
    → length s ≤ fuel
    → strip_java_exception_prefix (strip_prefixes fuel s) ≡ none
unfolding strip_prefixes
strip_prefixes_done zero [] h = unfold strip_java_exception_prefix find in refl
strip_prefixes_done zero (c ∷ s) h = absurd (omega arith)
strip_prefixes_done (suc fuel) s h = elim (Option-cases (strip_java_exception_prefix s)) [
  | inl e ↦ rw (e, strip_prefixes) e
  | inr (next, e) ↦
      rw (e, strip_prefixes) (strip_prefixes_done fuel next (omega (arith, strip-lt s next e)))
]

-- The stripping loop ends with a text that has no exception wrapper left, however many there were.
pub strip_prefixes_fixpoint :
    (s : Text) → strip_java_exception_prefix (strip_prefixes (length s) s) ≡ none
strip_prefixes_fixpoint s = strip_prefixes_done (length s) s (omega arith)
