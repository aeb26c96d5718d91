-- ===== src/ErrorMapping/MaskLoop.antt =====
-- The loop of `mask_url_hosts` (src/error_mapping.rs), round by round.
use postgresql_trino_gateway.Prelude.{
  ℕ, zero, suc, ◌≤◌, ◌<◌, ◌≡◌, refl, sym, ap, ◌∙◌, inl, inr, none, some, [], ◌∷◌, ◌++◌, append-nil,
  append_assoc, arith, length, length-append, Option-cases,
}
use postgresql_trino_gateway.Prelude.Text.{Text, find, drop_until}
use postgresql_trino_gateway.Prelude.TextLaws.{find_sound, length-drop_until}
use postgresql_trino_gateway.ErrorMapping.{
  https, http, trino_mask, is_host_end, find_scheme, mask_loop, mask_url_hosts,
}

mask_loop-none :
    (fuel : ℕ) (rest out : Text)
    → find_scheme rest ≡ none
    → mask_loop (suc fuel) rest out ≡ out ++ rest
unfolding mask_loop
mask_loop-none fuel rest out e = rw (e, mask_loop)

mask_loop-some :
    (fuel : ℕ) (rest out scheme before after : Text)
    → find_scheme rest ≡ some (scheme, before, after)
    → mask_loop (suc fuel) rest out
      ≡ mask_loop fuel (drop_until is_host_end after) (out ++ (before ++ (scheme ++ trino_mask)))
unfolding mask_loop
mask_loop-some fuel rest out scheme before after e = rw (e, mask_loop)

mask_loop-out :
    (fuel : ℕ) (rest out : Text) → mask_loop fuel rest out ≡ out ++ mask_loop fuel rest []
mask_loop-out zero rest out = unfold mask_loop in sym (append-nil out)
mask_loop-out (suc fuel) rest out = elim (Option-cases (find_scheme rest)) [
  | inl e ↦ rw (mask_loop-none fuel rest out e, mask_loop-none fuel rest [] e)
  | inr ((scheme, before, after), e) ↦
      let seg = before ++ (scheme ++ trino_mask) in
      let next = drop_until is_host_end after in
      rw
        (
          mask_loop-some fuel rest out scheme before after e,
          mask_loop-some fuel rest [] scheme before after e,
          mask_loop-out fuel next (out ++ seg),
          mask_loop-out fuel next seg,
        )
        (append_assoc out seg _)
]

-- The match that a round finds is there, and the rest of the text is shorter.
pub find_scheme_sound :
    (rest : Text) {scheme before after : Text}
    → find_scheme rest ≡ some (scheme, before, after)
    → (rest ≡ before ++ (scheme ++ after)) × (length (drop_until is_host_end after) < length rest)
unfolding find_scheme
find_scheme_sound rest {scheme} {before} {after} h = elim (Option-cases (find https rest)) [
  | inr ((b, a), e) ↦ ground (
    arith,
    find_sound https rest e,
    ap (length {0}) (find_sound https rest e),
    length-append b (https ++ a),
    length-append https a,
    length-drop_until is_host_end a,
  )
  | inl n ↦ elim (Option-cases (find http rest)) [
    | inl m ↦ ground arith
    | inr ((b, a), e) ↦ ground (
      arith,
      find_sound http rest e,
      ap (length {0}) (find_sound http rest e),
      length-append b (http ++ a),
      length-append http a,
      length-drop_until is_host_end a,
    )
  ]
]

-- Any two amounts of fuel that cover the text give the same result.
mask_loop_fuel :
    (f g : ℕ) (rest out : Text)
    → length rest ≤ f
    → length rest ≤ g
    → mask_loop f rest out ≡ mask_loop g rest out
mask_loop_fuel zero zero rest out p q = refl
mask_loop_fuel zero (suc g) [] out p q = sym (unfold mask_loop find_scheme find in append-nil out)
mask_loop_fuel zero (suc g) (c ∷ s) out p q = absurd (omega arith)
mask_loop_fuel (suc f) zero [] out p q = unfold mask_loop find_scheme find in append-nil out
mask_loop_fuel (suc f) zero (c ∷ s) out p q = absurd (omega arith)
mask_loop_fuel (suc f) (suc g) rest out p q = elim (Option-cases (find_scheme rest)) [
  | inl e ↦ mask_loop-none f rest out e ∙ sym (mask_loop-none g rest out e)
  | inr ((scheme, before, after), e) ↦
      let shorter = (find_scheme_sound rest e).1 in
      let next = drop_until is_host_end after in
      mask_loop-some f rest out scheme before after e
      ∙ mask_loop_fuel f g next (out ++ (before ++ (scheme ++ trino_mask))) (omega arith)
          (omega arith)
      ∙ sym (mask_loop-some g rest out scheme before after e)
]

mask_url_hosts_lem :
    (s : Text) (fuel : ℕ) → length s ≤ fuel → mask_url_hosts s ≡ mask_loop fuel s []
mask_url_hosts_lem s fuel h =
    unfold mask_url_hosts in mask_loop_fuel (length s) fuel s [] (omega arith) h

pub mask_url_hosts-some :
    (s scheme before after : Text)
    → find_scheme s ≡ some (scheme, before, after)
    → mask_url_hosts s
      ≡ before ++ (scheme ++ (trino_mask ++ mask_url_hosts (drop_until is_host_end after)))
mask_url_hosts-some s scheme before after e =
    let next = drop_until is_host_end after in
    let shorter = (find_scheme_sound s e).1 in
    rw (
      mask_url_hosts_lem s (suc (length s)) (omega arith),
      mask_loop-some (length s) s [] scheme before after e,
      mask_loop-out (length s) next (before ++ (scheme ++ trino_mask)),
      ← mask_url_hosts_lem next (length s) (omega arith),
      append_assoc,
      append_assoc,
    )

pub mask_url_hosts-none : (s : Text) → find_scheme s ≡ none → mask_url_hosts s ≡ s
mask_url_hosts-none s e =
    mask_url_hosts_lem s (suc (length s)) (omega arith) ∙ mask_loop-none (length s) s [] e

-- One round of masking, for every text: with no URL the text stays as it is; else the host behind
-- the scheme that the round picks gives way to `<trino>`, and the rest is masked in the same way.
mask_url_hosts_step :
    (s : Text)
    → mask_url_hosts s ≡ (elim (find_scheme s) [
      | none ↦ s
      | some (scheme, before, after) ↦
          before ++ (scheme ++ (trino_mask ++ mask_url_hosts (drop_until is_host_end after)))
    ])
mask_url_hosts_step s = elim (Option-cases (find_scheme s)) [
  | inl e ↦ rw e (mask_url_hosts-none s e)
  | inr ((scheme, before, after), e) ↦ rw e (mask_url_hosts-some s scheme before after e)
]

pub find_scheme-https :
    (s : Text) {before after : Text}
    → find https s ≡ some (before, after)
    → find_scheme s ≡ some (https, before, after)
unfolding find_scheme
find_scheme-https s e = rw (e, find_scheme)

pub find_scheme-http :
    (s : Text) {before after : Text}
    → find https s ≡ none
    → find http s ≡ some (before, after)
    → find_scheme s ≡ some (http, before, after)
unfolding find_scheme
find_scheme-http s n e = ground arith

pub find_scheme-none : (s : Text) → find https s ≡ none → find http s ≡ none → find_scheme s ≡ none
unfolding find_scheme
find_scheme-none s n m = ground arith
