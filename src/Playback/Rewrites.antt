-- ===== src/Playback/Rewrites.antt =====
-- service.go: what `rewriteManifest` answers.
use iolink.Base.{
  ℕ, suc, ◌≤◌, ◌≡◌, refl, ap, subst, ◌∙◌, inl, inr, ◌==◌, ==_iff, text_eq, int_eq, nat_eq, true,
  leb, leb→le, Bool-cases, Text, text, List, [], ◌∷◌, ◌++◌, length, All, All-map, some,
  Option-cases, ok, arith, lacks, split, split-join, join,
}
use iolink.Media.{MediaAccess, SegmentMapping, max_manifest_bytes}
use iolink.Playback.Effects.{M, Config, Run-cases}
use iolink.Playback.Segments.{valid_segment_path}
use iolink.Playback.Manifest.{
  Line, tag, segment, parse_manifest, segment_url, new_mapping, confirms, confirm_all,
  rewrite_lines, rewrite_manifest, store_mappings,
}
use iolink.Playback.Lines.{IsOwn, IsShown, IsLet, segment_url-lacks, parse_manifest-IsLet}

-- The mappings and the lines that the loop gives.
record Rewritten (a : MediaAccess) (raw_token : Text) (ls : List Line)
    (r : List SegmentMapping × List Text) : Type 0 where
  pub own : All (IsOwn a) r.0
  pub shown : All (IsShown a raw_token r.0) r.1
  pub whole : All (λ line. lacks b'\n' line ≡ true) r.1
  pub as_many : length r.1 ≡ length ls

IsShown-later :
    (a : MediaAccess) (raw_token : Text) (m : SegmentMapping) (ms : List SegmentMapping)
    (line : Text)
    → IsShown a raw_token ms line
    → IsShown a raw_token (m ∷ ms) line
IsShown-later a raw_token m ms line (inl t) = inl t
IsShown-later a raw_token m ms line (inr (i, n, e, f)) = inr (suc i, n, e, f)

new_mapping-IsOwn :
    (a : MediaAccess) (id path : Text)
    → valid_segment_path path ≡ true
    → IsOwn a (new_mapping a id path)
unfolding new_mapping
new_mapping-IsOwn a id path h = record {
  same_session = refl;
  same_stream = refl;
  same_source = refl;
  in_archive = h;
}

new_mapping-url :
    (a : MediaAccess) (raw_token id path : Text)
    → segment_url raw_token a.session_id id
      ≡ segment_url raw_token a.session_id (new_mapping a id path).id
unfolding new_mapping
new_mapping-url a raw_token id path = refl

confirms-eq :
    (a : MediaAccess) (got want : SegmentMapping)
    → IsOwn a want
    → confirms a got want ≡ true
    → got ≡ want
unfolding confirms
confirms-eq a got want v h = ground (
  arith,
  v.same_session,
  v.same_stream,
  v.same_source,
  ==_iff got.id want.id,
  ==_iff got.session_id a.session_id,
  ==_iff got.stream_id a.stream_id,
  ==_iff got.source_version a.source_version,
  ==_iff got.path want.path,
)

-- The store has created what it was asked for.
confirm_all-eq :
    (a : MediaAccess) (gots wants : List SegmentMapping)
    → All (IsOwn a) wants
    → length gots ≡ length wants
    → confirm_all a gots wants ≡ true
    → gots ≡ wants
unfolding confirm_all
confirm_all-eq a [] [] v l h = refl
confirm_all-eq a [] (want ∷ wants) v l h = absurd (ground arith)
confirm_all-eq a (got ∷ gots) [] v l h = absurd (ground arith)
confirm_all-eq a (got ∷ gots) (want ∷ wants) v l h = ground (
  arith,
  confirms-eq a got want v.0 (ground arith),
  confirm_all-eq a gots wants v.1 (ground arith) (ground arith),
)

module _ {W : Type 0} (d : Config W) (a : MediaAccess) (raw_token : Text) where
  rewrite_lines-Rewritten :
      (ls : List Line) (w : W) {w' : W} {r : List SegmentMapping × List Text}
      → All IsLet ls
      → rewrite_lines d a raw_token ls w ≡ (w', ok r)
      → Rewritten a raw_token ls r
  unfolding rewrite_lines
  rewrite_lines-Rewritten [] w {r = r} v h =
      let e : ([], []) ≡ r = ground arith in
      subst (Rewritten a raw_token []) e
        (record { own = tt; shown = tt; whole = tt; as_many = refl })
  rewrite_lines-Rewritten (tag line ∷ ls) w {r = r} v h =
      elim (Run-cases (rewrite_lines d a raw_token ls w)) [
        | inr (w1, e, f) ↦ absurd (ground arith)
        | inl (w1, rest, f) ↦
            let ih = rewrite_lines-Rewritten ls w v.1 f in
            let e : (rest.0, line ∷ rest.1) ≡ r = ground arith in
            subst (Rewritten a raw_token (tag line ∷ ls)) e (record {
              own = ih.own;
              shown = (inl v.0.0, ih.shown);
              whole = (v.0.1, ih.whole);
              as_many = ap suc ih.as_many;
            })
      ]
  rewrite_lines-Rewritten (segment path ∷ ls) w {r = r} v h = elim (Run-cases (d.new_uuid w)) [
    | inr (w1, e, f) ↦ absurd (ground arith)
    | inl (w1, id, f) ↦ elim (Run-cases (rewrite_lines d a raw_token ls w1)) [
      | inr (w2, e, g) ↦ absurd (ground arith)
      | inl (w2, rest, g) ↦
          let ih = rewrite_lines-Rewritten ls w1 v.1 g in
          let url = segment_url raw_token a.session_id id in
          let m = new_mapping a id path in
          let e : (m ∷ rest.0, url ∷ rest.1) ≡ r = ground arith in
          subst (Rewritten a raw_token (segment path ∷ ls)) e (record {
            own = (new_mapping-IsOwn a id path v.0, ih.own);
            shown = (
              inr (0, m, refl, new_mapping-url a raw_token id path),
              All-map rest.1 (IsShown-later a raw_token m rest.0) ih.shown,
            );
            whole = (segment_url-lacks raw_token a.session_id id, ih.whole);
            as_many = ap suc ih.as_many;
          })
    ]
  ]

store_mappings-ok :
    {W : Type 0} (a : MediaAccess) (create : List SegmentMapping → M W (List SegmentMapping))
    (ms : List SegmentMapping) (w : W) {w' : W} {u : Unit {0}}
    → All (IsOwn a) ms
    → store_mappings a create ms w ≡ (w', ok u)
    → create ms w ≡ (w', ok ms)
unfolding store_mappings
store_mappings-ok a create ms w {w'} v h = elim (Run-cases (create ms w)) [
  | inr (w1, e, f) ↦ absurd (ground arith)
  | inl (w1, made, f) ↦ elim (Bool-cases (length made == length ms)) [
    | inr b ↦ absurd (ground arith)
    | inl b ↦ elim (Bool-cases (confirm_all a made ms)) [
      | inr c ↦ absurd (ground arith)
      | inl c ↦
          let e : made ≡ ms = confirm_all-eq a made ms v (ground arith) c in
          let same : w1 ≡ w' = ground arith in rw f (rw (e, same) refl)
    ]
  ]
]

-- Why a manifest was answered, and what it shows.
pub record Published {W : Type 0} (d : Config W) (a : MediaAccess) (raw_token : Text) (w' : W)
    (output : Text) : Type 0 where
  pub lines : List Text
  pub mappings : List SegmentMapping
  pub create : List SegmentMapping → M W (List SegmentMapping)
  pub create_world : W
  pub configured : d.create_mappings ≡ some create
  pub created : create mappings create_world ≡ (w', ok mappings)
  pub own : All (IsOwn a) mappings
  pub answer : split b'\n' output ≡ lines ++ [] ∷ []
  pub shown : All (IsShown a raw_token mappings) lines
  pub bounded : length output ≤ max_manifest_bytes

split-output :
    (ls : List Text) {n : ℕ}
    → All (λ line. lacks b'\n' line ≡ true) ls
    → length ls ≡ suc n
    → split b'\n' (join b'\n' ls ++ text "\n") ≡ ls ++ [] ∷ []
split-output [] v h = absurd (ground arith)
split-output (l ∷ ls) v h = split-join b'\n' l ls v

module _ {W : Type 0} (d : Config W) (a : MediaAccess) (raw_token : Text) where
  pub rewrite_manifest-Published :
      (manifest : Text) (w : W) {w' : W} {output : Text}
      → rewrite_manifest d a raw_token manifest w ≡ (w', ok output)
      → Published d a raw_token w' output
  unfolding rewrite_manifest
  rewrite_manifest-Published manifest w {w'} {output} h = elim (Option-cases d.create_mappings) [
    | inl c ↦ absurd (ground arith)
    | inr (create, c) ↦ elim (Option-cases (parse_manifest manifest)) [
      | inl p ↦ absurd (ground arith)
      | inr (ls, p) ↦ elim (Run-cases (rewrite_lines d a raw_token ls w)) [
        | inr (w1, e, f) ↦ absurd (ground arith)
        | inl (w1, r, f) ↦
            let ((l, rest, cons), let_through) = parse_manifest-IsLet manifest p in
            let v = rewrite_lines-Rewritten d a raw_token ls w let_through f in
            elim (Bool-cases (leb (length (join b'\n' r.1 ++ text "\n")) max_manifest_bytes)) [
              | inr b ↦ absurd (ground arith)
              | inl b ↦ elim (Run-cases (store_mappings a create r.0 w1)) [
                | inr (w2, e, g) ↦ absurd (ground arith)
                | inl (w2, u, g) ↦
                    let e : join b'\n' r.1 ++ text "\n" ≡ output = ground arith in
                    let same : w2 ≡ w' = ground arith in
                    record {
                      lines = r.1;
                      mappings = r.0;
                      create = create;
                      create_world = w1;
                      configured = c;
                      created =
                          subst (λ x. create r.0 w1 ≡ (x, ok r.0)) same
                            (store_mappings-ok a create r.0 w1 v.own g);
                      own = v.own;
                      answer =
                          subst (λ x. split b'\n' x ≡ r.1 ++ [] ∷ []) e
                            (split-output r.1 v.whole (v.as_many ∙ ap length cons));
                      shown = v.shown;
                      bounded = subst (λ x. length x ≤ max_manifest_bytes) e (leb→le _ _ b);
                    }
              ]
            ]
      ]
    ]
  ]
