-- ===== src/License/Verified.antt =====
-- internal/license/signature.go and parsing.go: what a verified license has passed.
use iolink.Base.{
  ◌≤◌, ◌<◌, ◌≡◌, refl, subst, inl, inr, ◌==◌, ==_iff, text_eq, Bool, true, false, ◌&&◌, Bool-cases,
  leb_ℤ, Text, is_empty, List, [], ◌∷◌, any, All, length, pos, Option, none, some, Option-cases,
  trim_space, valid_utf8, ok, Result-cases, arith,
}
use iolink.Media.{Time}
use iolink.License.Json.{Json, has_duplicates}
use iolink.License.Files.{
  LicensePayload, Decoded, Envelope, Verified, Codec, max_payload_bytes, known_features,
  valid_identifier, valid_features, validate_payload, valid_fields, fits_payload, parse_payload,
  fits_envelope, decoded, is_json, verify,
}

pub record IsIdentifier (s : Text) : Type 0 where
  pub not_empty : is_empty s ≡ false
  pub short : length s ≤ 128
  pub trimmed : trim_space s ≡ s

abbrev pub AreDistinct : List Text → Type 0
AreDistinct [] = Unit
AreDistinct (f ∷ fs) = (any (λ s. s == f) fs ≡ false) × AreDistinct fs

-- A payload that makes sense: its identifiers are trimmed, its times follow each other, its limit is
-- no less than zero, and its features are known and named once.
pub record IsSound (p : LicensePayload) : Type 0 where
  pub license : IsIdentifier p.license_id
  pub deployment : IsIdentifier p.checked.deployment_id
  pub key : IsIdentifier p.key_id
  pub issued : 0 < p.issued_at
  pub starts : p.issued_at ≤ p.checked.not_before
  pub ends : (end : Time) → p.checked.expires_at ≡ some end → p.checked.not_before < end
  pub limit : leb_ℤ (pos 0) p.checked.max_devices ≡ true
  pub known : All (λ f. any (λ k. k == f) known_features ≡ true) p.checked.features
  pub distinct : AreDistinct p.checked.features

valid_identifier-IsIdentifier : (s : Text) → valid_identifier s ≡ true → IsIdentifier s
unfolding valid_identifier
valid_identifier-IsIdentifier s h = record {
  not_empty = ground arith;
  short = ground arith;
  trimmed = (==_iff (trim_space s) s).0 (ground arith);
}

seen_once :
    (seen fs : List Text) (f : Text)
    → valid_features seen fs ≡ true
    → any (λ s. s == f) seen ≡ true
    → any (λ s. s == f) fs ≡ false
unfolding valid_features
seen_once seen [] f h k = refl
seen_once seen (g ∷ fs) f h k = elim (Bool-cases (g == f)) [
  | inl t ↦
      let same = (==_iff g f).0 t in
      let fresh : any (λ s. s == g) seen ≡ false = ground arith in
      absurd (ground (arith, subst (λ x. any (λ s. s == x) seen ≡ false) same fresh))
  | inr n ↦ ground (arith, seen_once (g ∷ seen) fs f (ground arith) (ground arith))
]

features_sound :
    (seen fs : List Text)
    → valid_features seen fs ≡ true
    → All (λ f. any (λ k. k == f) known_features ≡ true) fs × AreDistinct fs
unfolding valid_features
features_sound seen [] h = (tt, tt)
features_sound seen (f ∷ fs) h =
    let (known, distinct) = features_sound (f ∷ seen) fs (ground arith) in
    (
      (ground arith, known),
      (seen_once (f ∷ seen) fs f (ground arith) (ground (arith, ==_iff f f)), distinct),
    )

validate_payload-IsSound : (p : LicensePayload) → validate_payload p ≡ true → IsSound p
unfolding validate_payload
validate_payload-IsSound p h =
    let (known, distinct) = features_sound [] p.checked.features (ground arith) in
    record {
      license = valid_identifier-IsIdentifier p.license_id (ground arith);
      deployment = valid_identifier-IsIdentifier p.checked.deployment_id (ground arith);
      key = valid_identifier-IsIdentifier p.key_id (ground arith);
      issued = ground arith;
      starts = ground arith;
      ends = λ end e. ground arith;
      limit = ground arith;
      known = known;
      distinct = distinct;
    }

-- What a payload's text has passed.
pub record IsParsed (c : Codec) (raw : Text) (p : LicensePayload) : Type 0 where
  pub json : Json
  pub decoding : Decoded
  pub size : length raw ≤ max_payload_bytes
  pub utf8 : valid_utf8 raw ≡ true
  pub read : c.parse_json raw ≡ some json
  pub no_duplicates : has_duplicates json ≡ false
  pub fields : valid_fields c json ≡ true
  pub decoded_as : c.decode raw ≡ some decoding
  pub kept : decoding.payload ≡ p
  pub sound : IsSound p

parse_payload-IsParsed :
    (c : Codec) (raw : Text) {p : LicensePayload} → parse_payload c raw ≡ ok p → IsParsed c raw p
unfolding parse_payload fits_payload
parse_payload-IsParsed c raw {p} h = elim (Bool-cases (fits_payload raw)) [
  | inr b ↦ absurd (ground arith)
  | inl b ↦ elim (Option-cases (c.parse_json raw)) [
    | inl e ↦ absurd (ground arith)
    | inr (json, e) ↦ elim (Bool-cases (has_duplicates json)) [
      | inl d ↦ absurd (ground arith)
      | inr d ↦ elim (Option-cases (c.decode raw)) [
        | inl f ↦ absurd (ground arith)
        | inr (found, f) ↦
            elim (Bool-cases
              (valid_fields c json && found.all_utc && validate_payload found.payload)) [
                | inr g ↦ absurd (ground arith)
                | inl g ↦
                    let same : found.payload ≡ p = ground arith in
                    record {
                      json = json;
                      decoding = found;
                      size = ground arith;
                      utf8 = ground arith;
                      read = e;
                      no_duplicates = d;
                      fields = ground arith;
                      decoded_as = f;
                      kept = same;
                      sound =
                          subst IsSound same
                            (validate_payload-IsSound found.payload (ground arith));
                    }
              ]
      ]
    ]
  ]
]

-- Why a license was verified.
pub record IsVerified (c : Codec) (e : Envelope) (accepts : Text → Text → Bool) (v : Verified)
    : Type 0 where
  pub envelope : fits_envelope e ≡ true
  pub payload_bytes : c.base64 e.payload_b64 ≡ some v.payload_raw
  pub signature_bytes : c.base64 e.signature_b64 ≡ some v.signature
  pub signature_not_empty : is_empty v.signature ≡ false
  pub signed : accepts (c.sum256 v.payload_raw) v.signature ≡ true
  pub digest : v.sha256 ≡ c.hex (c.sum256 v.payload_raw)
  pub parsed : IsParsed c v.payload_raw v.payload

decoded-ok : (o : Option Text) {s : Text} → decoded o ≡ ok s → o ≡ some s
decoded-ok none h = absurd cc
decoded-ok (some t) h = ground arith

pub verify-accepts :
    (c : Codec) (e : Envelope) (accepts : Text → Text → Bool) {v : Verified}
    → verify c e (some accepts) ≡ ok v
    → IsVerified c e accepts v
unfolding verify
verify-accepts c e accepts {v} h = elim (Bool-cases (fits_envelope e)) [
  | inr b ↦ absurd (ground arith)
  | inl b ↦ elim (Option-cases (c.base64 e.payload_b64)) [
    | inl x ↦ absurd (ground arith)
    | inr (raw, x) ↦ elim (Bool-cases (fits_payload raw && is_json (c.parse_json raw))) [
      | inr f ↦ absurd (ground arith)
      | inl f ↦ elim (Option-cases (c.base64 e.signature_b64)) [
        | inl y ↦ absurd (ground arith)
        | inr (signature, y) ↦ elim (Bool-cases (is_empty signature)) [
          | inl g ↦ absurd (ground arith)
          | inr g ↦ elim (Bool-cases (accepts (c.sum256 raw) signature)) [
            | inr k ↦ absurd (ground arith)
            | inl k ↦ elim (Result-cases (parse_payload c raw)) [
              | inr (z, l) ↦ absurd (ground arith)
              | inl (p, l) ↦
                  let found : Verified = record {
                    payload = p;
                    payload_raw = raw;
                    signature = signature;
                    sha256 = c.hex (c.sum256 raw);
                  } in
                  let same : found ≡ v = ground arith in
                  subst (IsVerified c e accepts) same (record {
                    envelope = b;
                    payload_bytes = x;
                    signature_bytes = y;
                    signature_not_empty = g;
                    signed = k;
                    digest = refl;
                    parsed = parse_payload-IsParsed c raw l;
                  })
            ]
          ]
        ]
      ]
    ]
  ]
]

-- A license is verified only with a key, from an envelope within its limits, when that key accepts the
-- signature for the SHA-256 of exactly the bytes of the payload; they hold JSON of bounded size
-- without a repeated key, with the eight fields, and give a payload that is sound.
pub verify-IsVerified :
    (c : Codec) (e : Envelope) (key : Option (Text → Text → Bool)) {v : Verified}
    → verify c e key ≡ ok v
    → (accepts : Text → Text → Bool) × (key ≡ some accepts) × IsVerified c e accepts v
unfolding verify
verify-IsVerified c e none h = absurd cc
verify-IsVerified c e (some accepts) h = (accepts, refl, verify-accepts c e accepts h)
