-- ===== src/Catalog/Calls.antt =====
-- internal/gbcatalog/catalog.go: `Start`, `AcceptPage` and `Expire` whole, when no other call runs
-- between their sections.
use iolink.Base.{
  ◌+◌, not, if◌then◌else◌, Text, Option, none, some, ℤ, GoError, CatalogError, Result, ok, err,
}
use iolink.Media.{Time}
use iolink.Catalog.Pages.{
  Page, Refresh, PageResult, refresh_timeout, failed, bounded_context, valid_page,
}
use iolink.Catalog.Coordinator.{
  Coordinator, Next, answers, expires, commits, new_refresh, start_look, started, start_record,
  page_look,
}
use iolink.Catalog.Endings.{commit, mark_stale, expire_look}

-- What a call reads from outside: the clock when the store is asked, the contexts and the store.
pub record Answers : Type 0 where
  pub clock : Time
  pub start_context : Option GoError
  pub start_refresh : Result Refresh
  pub replace_context : Option GoError
  pub replace_catalog : Option GoError
  pub stale_context : Option GoError
  pub mark_stale : Option GoError

abbrev recorded : Coordinator → Result Refresh → Coordinator × Result Refresh
recorded c (err e) = (c, err e)
recorded c (ok got) = let (c', r) = start_record c got in (c', ok r)

unfoldable pub start_refresh : Coordinator → Refresh → Answers → Coordinator × Result Refresh
start_refresh c r a = elim (start_look c r) [
  | some known ↦ (c, known)
  | none ↦ elim (bounded_context r.deadline a.clock a.start_context) [
    | some e ↦ (c, err e)
    | none ↦ recorded c (started r a.start_refresh)
  ]
]

unfoldable pub start : Coordinator → Text → ℤ → ℤ → Time → Answers → Coordinator × Result Refresh
unfolding start_refresh
start c device_id sn expected now a = elim (new_refresh device_id sn expected now) [
  | err e ↦ (c, err e)
  | ok r ↦ start_refresh c r a
]

abbrev stale_answer : Coordinator × Option GoError → Coordinator × Result PageResult
stale_answer (c, some e) = (c, err e)
stale_answer (c, none) = (c, err (failed CatalogError.deadline))

abbrev proceed : Answers → Time → Coordinator × Next → Coordinator × Result PageResult
proceed a now (c, answers r) = (c, r)
proceed a now (c, expires r) = stale_answer (mark_stale c r a.stale_context a.mark_stale)
proceed a now (c, commits m) = commit c m now a.replace_context a.replace_catalog

abbrev after_start :
    Page → Time → Answers → Coordinator × Result Refresh → Coordinator × Result PageResult
after_start page now a (c, err e) = (c, err e)
after_start page now a (c, ok r) = proceed a now (page_look c page now)

unfoldable pub accept_page : Coordinator → Page → Time → Answers → Coordinator × Result PageResult
unfolding start_refresh
accept_page c page now a =
    let asked : Refresh = record {
      device_id = page.device_id;
      sn = page.sn;
      expected_count = page.sum_num;
      deadline = now + refresh_timeout;
    } in
    if not (valid_page page)
    then (c, err (failed CatalogError.invalid))
    else after_start page now a (start_refresh c asked a)

abbrev expire_answer :
    Answers → Coordinator × Result (Option Refresh) → Coordinator × Option GoError
expire_answer a (c, err e) = (c, some e)
expire_answer a (c, ok none) = (c, none)
expire_answer a (c, ok (some r)) = mark_stale c r a.stale_context a.mark_stale

unfoldable pub expire : Coordinator → Text → ℤ → Time → Answers → Coordinator × Option GoError
expire c device_id sn now a = expire_answer a (expire_look c device_id sn now)
