-- ===== src/Catalog/Endings.antt =====
-- internal/gbcatalog/catalog.go: the critical sections that end a commit, a marking as stale and
-- an expiry.
use iolink.Base.{
  ◌==◌, nat_eq, text_eq, int_eq, pair_eq, true, false, ◌||◌, not, if◌then◌else◌, Text, Option, none,
  some, lookup, insert, delete, ℤ, is_positive, GoError, CatalogError, join_err, Result, ok, err,
}
use iolink.Media.{Time, before}
use iolink.Gb.Peers.{valid_device_id}
use iolink.Catalog.Pages.{item_eq, Refresh, PageResult, failed, bounded_context}
use iolink.Catalog.Coordinator.{Coordinator, key_of, put_pending, Commit}

-- The section after a commit that the store, or the context, refused.
unfoldable pub commit_failed : Coordinator → Commit → Coordinator
commit_failed c m = elim (lookup (key_of m.refresh) c.pending) [
  | none ↦ c
  | some p ↦
      if p.ident == m.ident
      then put_pending c (key_of m.refresh) (record p { committing = false })
      else c
]

-- The section after a commit that the store took.
unfoldable pub commit_done : Coordinator → Commit → Coordinator × Result PageResult
commit_done c m = elim (lookup (key_of m.refresh) c.pending) [
  | none ↦ (c, err (failed CatalogError.store))
  | some p ↦
      if not (p.ident == m.ident) || not p.committing
      then (c, err (failed CatalogError.store))
      else (
        record c {
          pending = delete (key_of m.refresh) c.pending;
          completed = insert (key_of m.refresh) m.refresh c.completed;
        },
        ok (record { refresh = m.refresh; complete = true; duplicate = m.duplicate }),
      )
]

-- The rest of `AcceptPage` on a commit: the context's and the store's answers.
unfoldable pub commit :
    Coordinator → Commit → Time → Option GoError → Option GoError → Coordinator × Result PageResult
unfolding commit_failed commit_done
commit c m now ctx_error answer = elim (bounded_context m.refresh.deadline now ctx_error) [
  | some e ↦ (commit_failed c m, err e)
  | none ↦ elim answer [
    | some e ↦ (commit_failed c m, err (join_err (failed CatalogError.store) e))
    | none ↦ commit_done c m
  ]
]

-- The section that ends `markStale`, after the context's answer and the store's.
unfoldable pub reset_staling : Coordinator → Refresh → Coordinator
reset_staling c r = elim (lookup (key_of r) c.pending) [
  | none ↦ c
  | some p ↦ put_pending c (key_of r) (record p { staling = false })
]

unfoldable pub set_stale : Coordinator → Refresh → Coordinator
set_stale c r = record c {
  pending = delete (key_of r) c.pending;
  stale = insert (key_of r) r c.stale;
}

unfoldable pub mark_stale :
    Coordinator → Refresh → Option GoError → Option GoError → Coordinator × Option GoError
unfolding reset_staling set_stale
mark_stale c r ctx_error answer = elim ctx_error [
  | some e ↦ (reset_staling c r, some e)
  | none ↦ elim answer [
    | some e ↦ (reset_staling c r, some (join_err (failed CatalogError.store) e))
    | none ↦ (set_stale c r, none)
  ]
]

-- The section of `Expire`; a refresh that it gives is to be marked stale.
unfoldable pub expire_look : Coordinator → Text → ℤ → Time → Coordinator × Result (Option Refresh)
expire_look c device_id sn now =
    if not (valid_device_id device_id) || not (is_positive sn)
    then (c, err (failed CatalogError.invalid))
    else elim (lookup (device_id, sn) c.pending) [
      | none ↦ (c, ok none)
      | some p ↦
          if before now p.refresh.deadline || p.committing
          then (c, err (failed CatalogError.invalid))
          else if p.staling
          then (c, ok none)
          else (put_pending c (device_id, sn) (record p { staling = true }), ok (some p.refresh))
    ]
