-- ===== src/Playback/Reads.antt =====
-- service.go: what `ReadManifest` and `ReadSegment` answer.
use iolink.Base.{
  ◌≤◌, ◌<◌, ◌≡◌, subst, inl, inr, ==_iff, text_eq, int_eq, true, ◌&&◌, not, leb, leb→le, Bool-cases,
  Text, is_empty, [], ◌∷◌, length, some, Option-cases, ok, arith,
}
use iolink.Media.{Context, MediaAccess, SegmentMapping, max_manifest_bytes, max_segment_bytes}
use iolink.Playback.Effects.{M, Config, Run-cases}
use iolink.Playback.Service.{authorize_media}
use iolink.Playback.Access.{Authorized, authorize_media-Authorized}
use iolink.Playback.Manifest.{serves, fetch_mapped, read_manifest, read_segment}
use iolink.Playback.Lines.{IsOwn}
use iolink.Playback.Rewrites.{Published, rewrite_manifest-Published}

-- What stands behind the content of a segment: a mapping of the store that belongs to the access.
pub record Fetched {W : Type 0} (resolve : Text → Text → M W SegmentMapping)
    (fetch : MediaAccess → Text → M W Text) (access : MediaAccess) (session_id segment_id : Text)
    (w w' : W) (content : Text) : Type 0 where
  pub mapping : SegmentMapping
  pub mapping_world : W
  pub resolved : resolve session_id segment_id w ≡ (mapping_world, ok mapping)
  pub same_id : mapping.id ≡ segment_id
  pub own : IsOwn access mapping
  pub fetched : fetch access mapping.path mapping_world ≡ (w', ok content)
  pub bounded : (0 < length content) × (length content ≤ max_segment_bytes)

-- Why a segment was served.
pub record Served {W : Type 0} (d : Config W) (raw_token session_id segment_id : Text) (w w' : W)
    (content : Text) : Type 0 where
  pub access : MediaAccess
  pub access_world : W
  pub resolve : Text → Text → M W SegmentMapping
  pub fetch : MediaAccess → Text → M W Text
  pub configured : (d.resolve_mapping ≡ some resolve) × (d.segments ≡ some fetch)
  pub authorized : Authorized d raw_token session_id w access_world access
  pub behind : Fetched resolve fetch access session_id segment_id access_world w' content

serves-IsOwn :
    (a : MediaAccess) (session_id segment_id : Text) (m : SegmentMapping)
    → a.session_id ≡ session_id
    → serves a session_id segment_id m ≡ true
    → (m.id ≡ segment_id) × IsOwn a m
unfolding serves
serves-IsOwn a session_id segment_id m s h = (
  ground (arith, ==_iff m.id segment_id),
  record {
    same_session = ground (arith, ==_iff m.session_id session_id);
    same_stream = ground (arith, ==_iff m.stream_id a.stream_id);
    same_source = ground (arith, ==_iff m.source_version a.source_version);
    in_archive = ground arith;
  },
)

abbrev HasSize : Text → Type 0
HasSize s = not (is_empty s) && leb (length s) max_segment_bytes ≡ true

segment_bounds : (s : Text) → HasSize s → (0 < length s) × (length s ≤ max_segment_bytes)
segment_bounds [] h = absurd (ground arith)
segment_bounds (c ∷ s) h = (omega arith, leb→le _ _ (ground arith))

fetch_mapped-Fetched :
    {W : Type 0} (resolve : Text → Text → M W SegmentMapping)
    (fetch : MediaAccess → Text → M W Text) (a : MediaAccess) (session_id segment_id : Text) (w : W)
    {w' : W} {content : Text}
    → a.session_id ≡ session_id
    → fetch_mapped resolve fetch a session_id segment_id w ≡ (w', ok content)
    → Fetched resolve fetch a session_id segment_id w w' content
unfolding fetch_mapped
fetch_mapped-Fetched resolve fetch a session_id segment_id w {w'} {content} s h =
    elim (Run-cases (resolve session_id segment_id w)) [
      | inr (w1, e, f) ↦ absurd (ground arith)
      | inl (w1, m, f) ↦ elim (Bool-cases (serves a session_id segment_id m)) [
        | inr b ↦ absurd (ground arith)
        | inl b ↦ elim (Run-cases (fetch a m.path w1)) [
          | inr (w2, e, g) ↦ absurd (ground arith)
          | inl (w2, got, g) ↦
              elim (Bool-cases (not (is_empty got) && leb (length got) max_segment_bytes)) [
                | inr c ↦ absurd (ground arith)
                | inl c ↦
                    let (same_id, own) = serves-IsOwn a session_id segment_id m s b in
                    let e : got ≡ content = ground arith in
                    record {
                      mapping = m;
                      mapping_world = w1;
                      resolved = f;
                      same_id = same_id;
                      own = own;
                      fetched = ground arith;
                      bounded = segment_bounds content (subst HasSize e c);
                    }
              ]
        ]
      ]
    ]

module _ {W : Type 0} (d : Config W) where
  pub read_manifest-Published :
      (ctx : Context) (raw_token session_id : Text) (w : W) {w' : W} {output : Text}
      → read_manifest d ctx raw_token session_id w ≡ (w', ok output)
      → (w1 : W) × (a : MediaAccess) × Authorized d raw_token session_id w w1 a
        × Published d a raw_token w' output
  unfolding read_manifest
  read_manifest-Published ctx raw_token session_id w h = elim (Option-cases ctx) [
    | inl c ↦ absurd (ground arith)
    | inr (live, c) ↦ elim (Run-cases (authorize_media d raw_token session_id w)) [
      | inr (w1, e, f) ↦ absurd (ground arith)
      | inl (w1, a, f) ↦ elim (Option-cases d.manifest) [
        | inl n ↦ absurd (ground arith)
        | inr (fetch, n) ↦ elim (Run-cases (fetch a w1)) [
          | inr (w2, e, g) ↦ absurd (ground arith)
          | inl (w2, manifest, g) ↦
              elim (Bool-cases
                (not (is_empty manifest) && leb (length manifest) max_manifest_bytes)) [
                  | inr b ↦ absurd (ground arith)
                  | inl b ↦ (
                    w1,
                    a,
                    authorize_media-Authorized d raw_token session_id w f,
                    rewrite_manifest-Published d a raw_token manifest w2 (ground arith),
                  )
                ]
        ]
      ]
    ]
  ]

  pub read_segment-Served :
      (ctx : Context) (raw_token session_id segment_id : Text) (w : W) {w' : W} {content : Text}
      → read_segment d ctx raw_token session_id segment_id w ≡ (w', ok content)
      → Served d raw_token session_id segment_id w w' content
  unfolding read_segment
  read_segment-Served ctx raw_token session_id segment_id w {w'} {content} h =
      elim (Option-cases ctx) [
        | inl c ↦ absurd (ground arith)
        | inr (live, c) ↦ elim (Run-cases (authorize_media d raw_token session_id w)) [
          | inr (w1, e, f) ↦ absurd (ground arith)
          | inl (w1, a, f) ↦ elim (Option-cases d.segments) [
            | inl n ↦ absurd (ground arith)
            | inr (fetch, n) ↦ elim (Option-cases d.resolve_mapping) [
              | inl m ↦ absurd (ground arith)
              | inr (resolve, m) ↦ elim (Bool-cases (is_empty segment_id)) [
                | inl b ↦ absurd (ground arith)
                | inr b ↦
                    let v = authorize_media-Authorized d raw_token session_id w f in
                    record {
                      access = a;
                      access_world = w1;
                      resolve = resolve;
                      fetch = fetch;
                      configured = (m, n);
                      authorized = v;
                      behind =
                          fetch_mapped-Fetched resolve fetch a session_id segment_id w1
                            v.same_session (ground arith);
                    }
              ]
            ]
          ]
        ]
      ]
