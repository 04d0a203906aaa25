-- ===== src/Camera/Written.antt =====
-- internal/camera/service.go: what the second transaction of `configure` has passed.
use iolink.Base.{
  ◌≤◌, ◌≡◌, refl, sym, subst, ◌⊎◌, inl, inr, true, Bool-cases, Text, is_empty, [], ◌∷◌, leb→le, leb,
  length, ℤ, some, Option-cases, ok, Result-cases, arith,
}
use iolink.World.{M, Run-cases}
use iolink.Camera.Source.{VideoSource, VideoSourceKind, kind}
use iolink.Camera.Credentials.{
  camera_credential, CredentialBinding, is_valid, new_video_credential_binding,
}
use iolink.Camera.Configuration.{Configuration}
use iolink.Camera.Store.{Camera, Binding, LicenseSnapshot, Store}
use iolink.Camera.Service.{
  Dependencies, target, sealed, mutate, licensed, license_failure, prepare_write,
}
use iolink.Camera.Transactions.{on_err-ok}

empty-eq : (s : Text) → is_empty s ≡ true → s ≡ []
empty-eq [] h = refl
empty-eq (c ∷ s) h = absurd cc

-- What a credential of a camera is sealed for.
abbrev pub binding_of : ℤ → Binding → CredentialBinding
binding_of tenant binding = record {
  purpose = camera_credential;
  tenant_id = tenant;
  entity_id = binding.id;
  version = binding.source_version;
}

-- A configuration has no credential and gets no cipher text, or its credential was sealed for this
-- camera of this tenant at this version, which gave at least 29 bytes.
abbrev pub IsSealed :
    {W : Type 0}
    → ℤ
    → Configuration
    → Binding
    → (CredentialBinding → Text → M W Text)
    → W
    → W
    → Text
    → Type 0
IsSealed tenant cfg binding seal w w' cipher =
    ((cfg.credential ≡ []) × (cipher ≡ []) × (w ≡ w'))
    ⊎ ((is_valid (binding_of tenant binding) ≡ true)
        × (seal (binding_of tenant binding) cfg.credential w ≡ (w', ok cipher))
        × (29 ≤ length cipher))

module _ {W : Type 0} (d : Dependencies W) (cfg : Configuration) where
  new-binding_of :
      (binding : Binding) {aad : CredentialBinding}
      → new_video_credential_binding camera_credential d.tenant binding.id binding.source_version
        ≡ ok aad
      → (is_valid (binding_of d.tenant binding) ≡ true) × (binding_of d.tenant binding ≡ aad)
  unfolding new_video_credential_binding
  new-binding_of binding h = elim (Bool-cases (is_valid (binding_of d.tenant binding))) [
    | inl t ↦ (t, ground arith)
    | inr f ↦ absurd (ground arith)
  ]

  sealed-IsSealed :
      (binding : Binding) (seal : CredentialBinding → Text → M W Text) (w : W) {w' : W}
      {cipher : Text}
      → sealed d cfg binding seal w ≡ (w', ok cipher)
      → IsSealed d.tenant cfg binding seal w w' cipher
  unfolding sealed
  sealed-IsSealed binding seal w {w'} {cipher} h = elim (Bool-cases (is_empty cfg.credential)) [
    | inl t ↦ inl (empty-eq cfg.credential t, ground arith, ground arith)
    | inr f ↦
        elim (Result-cases (
          new_video_credential_binding camera_credential d.tenant binding.id
            binding.source_version)) [
              | inr (e, k) ↦ absurd (ground arith)
              | inl (aad, k) ↦ elim (Run-cases (seal aad cfg.credential w)) [
                | inr (w1, e, l) ↦ absurd (ground arith)
                | inl (w1, c, l) ↦ elim (Bool-cases (leb 29 (length c))) [
                  | inr m ↦ absurd (ground arith)
                  | inl m ↦
                      let (valid, same) = new-binding_of binding k in
                      let same_text : c ≡ cipher = ground arith in
                      let same_world : w1 ≡ w' = ground arith in
                      let sealing : seal (binding_of d.tenant binding) cfg.credential w
                          ≡ (w', ok cipher) =
                        subst (λ b. seal b cfg.credential w ≡ (w', ok cipher)) (sym same)
                          (subst (λ x. seal aad cfg.credential w ≡ (x, ok cipher)) same_world
                            (subst (λ x. seal aad cfg.credential w ≡ (w1, ok x)) same_text l)) in
                      inr (
                        valid,
                        sealing,
                        leb→le 29 (length cipher)
                            (subst (λ x. leb 29 (length x) ≡ true) same_text m),
                      )
                ]
              ]
            ]
  ]

module _ {W : Type 0} (d : Dependencies W) (cfg : Configuration) (source : VideoSource)
    (s : Store W) where
  -- What the second transaction did behind its check of the authority.
  pub record Written (id : ℤ) (w w' : W) (result : Camera) : Type 0 where
    pub binding : Binding
    pub require_video : LicenseSnapshot → M W (Unit {0})
    pub snapshot : LicenseSnapshot
    pub require_configuration : VideoSourceKind → M W (Unit {0})
    pub seal : CredentialBinding → Text → M W Text
    pub cipher : Text
    pub prepared_world : W
    pub snapshot_world : W
    pub license_world : W
    pub available_world : W
    pub sealed_world : W
    pub prepared : s.prepare (target d id cfg) w ≡ (prepared_world, ok binding)
    pub has_license : d.require_video ≡ some require_video
    pub snapshot_read : s.license_snapshot prepared_world ≡ (snapshot_world, ok snapshot)
    pub licensed : require_video snapshot snapshot_world ≡ (license_world, ok tt)
    pub has_availability : d.require_configuration ≡ some require_configuration
    pub available : require_configuration (kind source) license_world ≡ (available_world, ok tt)
    pub has_cipher : d.seal ≡ some seal
    pub sealed_cipher : IsSealed d.tenant cfg binding seal available_world sealed_world cipher
    pub written :
        s.write
          (record { binding = binding; configuration = cfg; credential_cipher = cipher })
          sealed_world
        ≡ (w', ok result)

  licensed-ok :
      (w : W) {w' : W}
      → licensed d s w ≡ (w', ok tt)
      → (require_video : LicenseSnapshot → M W (Unit {0})) × (snapshot : LicenseSnapshot) × (w1 : W)
        × (d.require_video ≡ some require_video)
        × (s.license_snapshot w ≡ (w1, ok snapshot))
        × (require_video snapshot w1 ≡ (w', ok tt))
  unfolding licensed
  licensed-ok w {w'} h = elim (Option-cases d.require_video) [
    | inl e ↦ absurd (ground arith)
    | inr (r, e) ↦ elim (Run-cases (s.license_snapshot w)) [
      | inr (w1, x, k) ↦ absurd (ground arith)
      | inl (w1, snapshot, k) ↦
          (r, snapshot, w1, e, k, on_err-ok license_failure (r snapshot) w1 (ground arith))
    ]
  ]

  pub prepare_write-Written :
      (id : ℤ) (w : W) {w' : W} {result : Camera}
      → prepare_write d id cfg source s w ≡ (w', ok result)
      → Written id w w' result
  unfolding prepare_write mutate
  prepare_write-Written id w {w'} {result} h = elim (Run-cases (s.prepare (target d id cfg) w)) [
    | inr (w1, e, k) ↦ absurd (ground arith)
    | inl (w1, binding, k) ↦ elim (Run-cases (licensed d s w1)) [
      | inr (w2, e, l) ↦ absurd (ground arith)
      | inl (w2, u, l) ↦ elim (Option-cases d.require_configuration) [
        | inl e ↦ absurd (ground arith)
        | inr (available, m) ↦ elim (Option-cases d.seal) [
          | inl e ↦ absurd (ground arith)
          | inr (seal, n) ↦ elim (Run-cases (available (kind source) w2)) [
            | inr (w3, e, o) ↦ absurd (ground arith)
            | inl (w3, v, o) ↦ elim (Run-cases (sealed d cfg binding seal w3)) [
              | inr (w4, e, p) ↦ absurd (ground arith)
              | inl (w4, cipher, p) ↦
                  let (r, snapshot, w5, has, read, pass) = licensed-ok w1 l in
                  record {
                    binding = binding;
                    require_video = r;
                    snapshot = snapshot;
                    require_configuration = available;
                    seal = seal;
                    cipher = cipher;
                    prepared_world = w1;
                    snapshot_world = w5;
                    license_world = w2;
                    available_world = w3;
                    sealed_world = w4;
                    prepared = k;
                    has_license = has;
                    snapshot_read = read;
                    licensed = pass;
                    has_availability = m;
                    available = o;
                    has_cipher = n;
                    sealed_cipher = sealed-IsSealed d cfg binding seal w3 p;
                    written = ground arith;
                  }
            ]
          ]
        ]
      ]
    ]
  ]
