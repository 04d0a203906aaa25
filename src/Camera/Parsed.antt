-- ===== src/Camera/Parsed.antt =====
-- internal/camera/configuration.go: what a configuration that was parsed holds.
use iolink.Base.{
  ◌≤◌, ◌≡◌, refl, sym, ap, subst, ◌⊎◌, inl, inr, text_eq, true, false, ◌&&◌, Bool-cases, Text,
  is_empty, is_digit, [], all, leb, length, ℤ, Option, none, some, Option-cases, trim_space,
  valid_utf8, rune_count, has_control, ok, Result-cases, arith,
}
use iolink.Rtsp.Uri.{Url}
use iolink.Camera.Source.{
  VideoSourceKind, video_rtsp, video_gb28181, other_kind, VideoSource, rtsp_source, gb_source,
  Parsers, valid_uri, valid_url, new_rtsp_video_source, new_gb_video_source,
}
use iolink.Camera.Credentials.{is_positive}
use iolink.Camera.Configuration.{
  Credentials, SourceInput, Configuration, is_zero, configuration, valid_label, valid_name,
  parse_credentials, parse_source, parse_configuration,
}

-- A text of 1 to 128 runes without a control character.
pub record IsLabel (s : Text) : Type 0 where
  pub utf8 : valid_utf8 s ≡ true
  pub not_empty : 1 ≤ rune_count s
  pub bounded : rune_count s ≤ 128
  pub no_control : has_control s ≡ false

-- The source of an input, with the credential: an RTSP address that parses and passes, and the
-- encoded credentials if there are any; or a channel of 20 digits of a device, and no credential.
pub data IsSource (p : Parsers) (marshal : Credentials → Option Text) (input : SourceInput)
    : VideoSource → Text → Type 0 where
  of_rtsp :
      (u : Url)
      → input.kind ≡ video_rtsp
      → valid_uri input.uri ≡ true
      → p.parse_url input.uri ≡ some u
      → valid_url p u ≡ true
      → input.credentials ≡ none
      → IsSource p marshal input (rtsp_source input.uri) []
  of_rtsp_with :
      (u : Url) (c : Credentials) {encoded : Text}
      → input.kind ≡ video_rtsp
      → valid_uri input.uri ≡ true
      → p.parse_url input.uri ≡ some u
      → valid_url p u ≡ true
      → input.credentials ≡ some c
      → IsLabel c.username
      → IsLabel c.password
      → marshal c ≡ some encoded
      → IsSource p marshal input (rtsp_source input.uri) encoded
  of_gb :
      input.kind ≡ video_gb28181
      → is_positive input.device_id ≡ true
      → length input.channel_id ≡ 20
      → all is_digit input.channel_id ≡ true
      → input.credentials ≡ none
      → IsSource p marshal input (gb_source input.device_id input.channel_id) []

valid_label-IsLabel : (s : Text) → valid_label s ≡ true → IsLabel s
unfolding valid_label
valid_label-IsLabel s h = record {
  utf8 = ground arith;
  not_empty = ground arith;
  bounded = ground arith;
  no_control = ground arith;
}

rtsp-valid :
    (p : Parsers) (raw : Text) {source : VideoSource}
    → new_rtsp_video_source p raw ≡ ok source
    → (u : Url) × (valid_uri raw ≡ true)
      × (p.parse_url raw ≡ some u)
      × (valid_url p u ≡ true)
      × (rtsp_source raw ≡ source)
unfolding new_rtsp_video_source
rtsp-valid p raw h = elim (Bool-cases (valid_uri raw)) [
  | inr b ↦ absurd (ground arith)
  | inl b ↦ elim (Option-cases (p.parse_url raw)) [
    | inl e ↦ absurd (ground arith)
    | inr (u, e) ↦ elim (Bool-cases (valid_url p u)) [
      | inr c ↦ absurd (ground arith)
      | inl c ↦ (u, b, e, c, ground arith)
    ]
  ]
]

credentials-ok :
    (marshal : Credentials → Option Text) (c : Credentials) {credential : Text}
    → parse_credentials marshal (some c) ≡ ok credential
    → IsLabel c.username × IsLabel c.password × (marshal c ≡ some credential)
unfolding parse_credentials
credentials-ok marshal c h = elim (Bool-cases (valid_label c.username && valid_label c.password)) [
  | inr b ↦ absurd (ground arith)
  | inl b ↦ elim (Option-cases (marshal c)) [
    | inl e ↦ absurd (ground arith)
    | inr (s, e) ↦ (
      valid_label-IsLabel c.username (ground arith),
      valid_label-IsLabel c.password (ground arith),
      ground arith,
    )
  ]
]

gb-valid :
    (device_id : ℤ) (channel_id : Text) {source : VideoSource}
    → new_gb_video_source device_id channel_id ≡ ok source
    → (is_positive device_id ≡ true)
      × (length channel_id ≡ 20)
      × (all is_digit channel_id ≡ true)
      × (gb_source device_id channel_id ≡ source)
unfolding new_gb_video_source
gb-valid device_id channel_id h =
    elim (Bool-cases (
      is_positive device_id
      && leb (length channel_id) 20
      && leb 20 (length channel_id)
      && all is_digit channel_id)) [
        | inl b ↦ (ground arith, ground arith, ground arith, ground arith)
        | inr b ↦ absurd (ground arith)
      ]

kind-cases :
    (k : VideoSourceKind)
    → (k ≡ video_rtsp) ⊎ ((k ≡ video_gb28181) ⊎ ((t : Text) × (k ≡ other_kind t)))
kind-cases video_rtsp = inl refl
kind-cases video_gb28181 = inr (inl refl)
kind-cases (other_kind t) = inr (inr (t, refl))

module _ (p : Parsers) (marshal : Credentials → Option Text) (input : SourceInput) where
  parse_gb-IsSource :
      {source : VideoSource} {credential : Text}
      → input.kind ≡ video_gb28181
      → parse_source p marshal input ≡ ok (source, credential)
      → IsSource p marshal input source credential
  unfolding parse_source
  parse_gb-IsSource {source} {credential} k h = elim (Option-cases input.credentials) [
    | inr (c, e) ↦ absurd (ground arith)
    | inl e ↦ elim (Bool-cases (is_empty input.uri)) [
      | inr b ↦ absurd (ground arith)
      | inl b ↦ elim (Result-cases (new_gb_video_source input.device_id input.channel_id)) [
        | inr (x, f) ↦ absurd (ground arith)
        | inl (found, f) ↦
            let (device, width, digits, same) = gb-valid input.device_id input.channel_id f in
            let same_source : gb_source input.device_id input.channel_id ≡ source = ground arith in
            let same_text : [] ≡ credential = ground arith in
            subst (λ x. IsSource p marshal input x credential) same_source
              (subst (λ x. IsSource p marshal input (gb_source input.device_id input.channel_id) x)
                same_text (of_gb k device width digits e))
      ]
    ]
  ]

  credential-IsSource :
      (u : Url) {credential : Text}
      → input.kind ≡ video_rtsp
      → valid_uri input.uri ≡ true
      → p.parse_url input.uri ≡ some u
      → valid_url p u ≡ true
      → parse_credentials marshal input.credentials ≡ ok credential
      → IsSource p marshal input (rtsp_source input.uri) credential
  unfolding parse_credentials
  credential-IsSource u {credential} k raw parsed valid h = elim (Option-cases input.credentials) [
    | inl e ↦
        let same : [] ≡ credential = ground arith in
        subst (λ x. IsSource p marshal input (rtsp_source input.uri) x) same
          (of_rtsp u k raw parsed valid e)
    | inr (c, e) ↦
        let h' = subst (λ x. parse_credentials marshal x ≡ ok credential) e h in
        let (username, password, encoded) = credentials-ok marshal c h' in
        of_rtsp_with u c k raw parsed valid e username password encoded
  ]

  parse_rtsp-IsSource :
      {source : VideoSource} {credential : Text}
      → input.kind ≡ video_rtsp
      → parse_source p marshal input ≡ ok (source, credential)
      → IsSource p marshal input source credential
  unfolding parse_source
  parse_rtsp-IsSource {source} {credential} k h =
      elim (Bool-cases (is_zero input.device_id && is_empty input.channel_id)) [
        | inr b ↦ absurd (ground arith)
        | inl b ↦ elim (Result-cases (new_rtsp_video_source p input.uri)) [
          | inr (x, f) ↦ absurd (ground arith)
          | inl (found, f) ↦ elim (Result-cases (parse_credentials marshal input.credentials)) [
            | inr (x, g) ↦ absurd (ground arith)
            | inl (text', g) ↦
                let (u, raw, parsed, valid, same) = rtsp-valid p input.uri f in
                let same_source : rtsp_source input.uri ≡ source = ground arith in
                let same_text : text' ≡ credential = ground arith in
                subst (λ x. IsSource p marshal input x credential) same_source
                  (subst (λ x. IsSource p marshal input (rtsp_source input.uri) x) same_text
                    (credential-IsSource u k raw parsed valid g))
          ]
        ]
      ]

  parse_source-IsSource :
      {source : VideoSource} {credential : Text}
      → parse_source p marshal input ≡ ok (source, credential)
      → IsSource p marshal input source credential
  unfolding parse_source
  parse_source-IsSource h = elim (kind-cases input.kind) [
    | inl k ↦ parse_rtsp-IsSource k h
    | inr (inl k) ↦ parse_gb-IsSource k h
    | inr (inr (t, k)) ↦ absurd (ground arith)
  ]

  -- A configuration is parsed only for a positive pond and a name of 1 to 128 runes that is not blank
  -- and holds no control character, which it keeps; its source is a valid RTSP address, with the
  -- encoded credentials if some are given, or a channel of 20 digits of a device, without credentials.
  pub parse_configuration-IsSource :
      (pond_id : ℤ) (name : Text) {cfg : Configuration}
      → parse_configuration p marshal pond_id name input ≡ ok cfg
      → (is_positive pond_id ≡ true)
        × (cfg.pond_id ≡ pond_id)
        × IsLabel name
        × (is_empty (trim_space name) ≡ false)
        × (cfg.name ≡ name)
        × ((source : VideoSource) × (cfg.source ≡ some source)
            × IsSource p marshal input source cfg.credential)
  unfolding parse_configuration valid_name
  parse_configuration-IsSource pond_id name {cfg} h =
      elim (Bool-cases (is_positive pond_id && valid_name name)) [
        | inr b ↦ absurd (ground arith)
        | inl b ↦ elim (Result-cases (parse_source p marshal input)) [
          | inr (e, k) ↦ absurd (ground arith)
          | inl ((source, credential), k) ↦
              let same : configuration pond_id name source credential ≡ cfg = ground arith in
              (
                ground arith,
                sym (ap (λ x. x.pond_id) same),
                valid_label-IsLabel name (ground arith),
                ground arith,
                sym (ap (λ x. x.name) same),
                (
                  source,
                  sym (ap (λ x. x.source) same),
                  subst (λ x. IsSource p marshal input source x.credential) same
                      (parse_source-IsSource k),
                ),
              )
        ]
      ]
