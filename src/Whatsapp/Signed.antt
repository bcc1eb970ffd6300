-- ===== src/Whatsapp/Signed.antt =====
-- Which signatures `verify_signature` accepts.
use wapsell_saas.Prelude.{
  ◌≡◌, ◌≢◌, refl, sym, ap, ◌∙◌, Bool, true, false, ◌&&◌, some, [], ◌∷◌, ◌++◌, Text, codes, ◌==◌,
  eq_iff, eq_refl, length, drop, starts_with, none, arith, Bool-cases, inl, inr,
}
use wapsell_saas.Whatsapp.Payload.{signature_prefix, is_ascii, compare_digest, verify_signature}

-- The header that signs a body: the prefix and the hexadecimal digest.
abbrev pub header_of : (Text → Text → Text) → Text → Text → Text
header_of hexdigest app_secret body = codes "sha256=" ++ hexdigest app_secret body

starts_with-split : (h p : Text) → starts_with h p ≡ true → h ≡ p ++ drop (length p) h
unfolding starts_with
starts_with-split h [] e = refl
starts_with-split [] (b ∷ p) e = absurd (ground arith)
starts_with-split (a ∷ h) (b ∷ p) e =
    let q : starts_with h p ≡ true = ground arith in ground (arith, starts_with-split h p q)

module _ (hexdigest : Text → Text → Text) (app_secret body : Text) where
  abbrev expected : Text
  expected = hexdigest app_secret body

  compare_digest-same : (a b : Text) (r : Bool) → compare_digest a b ≡ some r → r ≡ (a == b)
  unfolding compare_digest
  compare_digest-same a b r e = elim (Bool-cases (is_ascii a && is_ascii b)) [
    | inl y ↦ ground arith
    | inr y ↦ ground arith
  ]

  -- A signature that is accepted is the prefix and the digest.
  pub verify_signature-accepts :
      (header : Text)
      → verify_signature hexdigest app_secret body header ≡ some true
      → header ≡ header_of hexdigest app_secret body
  unfolding verify_signature
  verify_signature-accepts header e = elim (Bool-cases (starts_with header signature_prefix)) [
    | inr n ↦ ground arith
    | inl y ↦
        let given : Text = drop (length signature_prefix) header in
        let c : compare_digest expected given ≡ some true = ground arith in
        let q : expected ≡ given =
          (eq_iff expected given).0 (sym (compare_digest-same expected given true c)) in
        starts_with-split header signature_prefix y ∙ ap (λ s. signature_prefix ++ s) (sym q)
  ]

  -- The header that signs the body is accepted, where the digest is ASCII.
  pub verify_signature-signed :
      (header : Text)
      → header ≡ header_of hexdigest app_secret body
      → is_ascii expected ≡ true
      → verify_signature hexdigest app_secret body header ≡ some true
  unfolding verify_signature starts_with compare_digest
  verify_signature-signed header e a =
      ap (λ h. verify_signature hexdigest app_secret body h) e ∙ ground (arith, a, eq_refl expected)

  -- Another header is refused, where it and the digest are ASCII.
  pub verify_signature-refuses :
      (header : Text)
      → header ≢ header_of hexdigest app_secret body
      → is_ascii expected ≡ true
      → is_ascii header ≡ true
      → verify_signature hexdigest app_secret body header ≡ some false
  unfolding verify_signature compare_digest
  verify_signature-refuses header ne a h = elim (Bool-cases (starts_with header signature_prefix)) [
    | inr n ↦ ground arith
    | inl y ↦
        let given : Text = drop (length signature_prefix) header in
        let split : header ≡ codes "sha256=" ++ given =
          starts_with-split header signature_prefix y in
        let g : is_ascii given ≡ true = ap is_ascii (sym split) ∙ h in
        elim (Bool-cases (expected == given)) [
          | inr f ↦ ground arith
          | inl t ↦
              absurd
                (ne (split ∙ ap (λ s. signature_prefix ++ s) (sym ((eq_iff expected given).0 t))))
        ]
  ]

  -- After the prefix, what is not ASCII makes the comparison raise.
  pub verify_signature-raises :
      (given : Text)
      → is_ascii given ≡ false
      → verify_signature hexdigest app_secret body (codes "sha256=" ++ given) ≡ none
  unfolding verify_signature starts_with compare_digest
  verify_signature-raises given h = elim (Bool-cases (is_ascii expected)) [
    | inl y ↦ ground arith
    | inr n ↦ ground arith
  ]
