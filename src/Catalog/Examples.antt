-- ===== src/Catalog/Examples.antt =====
-- The theorems on catalogues at concrete data.
use iolink.Base.{
  ℕ, ◌≡◌, refl, nat_eq, text_eq, int_eq, pair_eq, true, false, text, text_beq, List, [], ◌∷◌,
  lookup, insert, delete, some, none, pos, ok, text_ltb,
}
use iolink.Catalog.Pages.{Item, Page, Refresh, valid_page, valid_items, conflicts}
use iolink.Gb.Peers.{valid_device_id}
use iolink.Catalog.Calls.{Answers, accept_page}
use iolink.Catalog.Coordinator.{
  Coordinator, Pending, Commit, commits, new_coordinator, start_record, merge, insert_item,
  sort_items, collect, page_look,
}
use iolink.Catalog.Endings.{commit_done}
use iolink.Catalog.Commits.{Whole}
use iolink.Catalog.Traces.{
  Section, records, looks, finishes, step, run, complete_answer, completed_for_good, commits-Whole,
}

abbrev gate : Item
gate = record { channel_id = text "34020000001320000002"; name = text "gate"; online = true }

abbrev pond : Item
pond = record { channel_id = text "34020000001320000001"; name = text "pond"; online = false }

abbrev device : List ℕ
device = text "34020000002000000001"

abbrev refresh : Refresh
refresh = record { device_id = device; sn = pos 7; expected_count = pos 2; deadline = 100 }

abbrev first_page : Page
first_page = record { device_id = device; sn = pos 7; sum_num = pos 2; items = gate ∷ [] }

abbrev last_page : Page
last_page = record { device_id = device; sn = pos 7; sum_num = pos 2; items = pond ∷ [] }

abbrev gathered : List Section
gathered = records refresh ∷ looks first_page 10 ∷ []

abbrev catalogue : Commit
catalogue = record { refresh = refresh; ident = 0; items = pond ∷ gate ∷ []; duplicate = false }

abbrev committing : Pending
committing = record {
  ident = 0;
  refresh = refresh;
  items = (gate.channel_id, gate) ∷ (pond.channel_id, pond) ∷ [];
  staling = false;
  committing = true;
}

abbrev handed_over : Coordinator
handed_over = record {
  next_ident = 1;
  pending = ((device, pos 7), committing) ∷ [];
  completed = [];
  stale = [];
}

last_look : page_look (run new_coordinator gathered) last_page 20 ≡ (handed_over, commits catalogue)
unfolding run step new_coordinator start_record page_look collect merge sort_items insert_item
    lookup insert text_beq text_ltb
last_look = refl

commits-Whole_example : Whole (run new_coordinator gathered) handed_over last_page catalogue
commits-Whole_example = commits-Whole gathered last_page 20 last_look

abbrev completing : List Section
completing = records refresh ∷ looks first_page 10 ∷ looks last_page 20 ∷ finishes catalogue ∷ []

is_complete : lookup (device, pos 7) (run new_coordinator completing).completed ≡ some refresh
unfolding run step new_coordinator start_record page_look collect merge sort_items insert_item
    commit_done lookup insert delete text_beq text_ltb
is_complete = refl

abbrev no_answers : Answers
no_answers = record {
  clock = 30;
  start_context = none;
  start_refresh = ok refresh;
  replace_context = none;
  replace_catalog = none;
  stale_context = none;
  mark_stale = none;
}

first_page-valid : valid_page first_page ≡ true
unfolding valid_page valid_items conflicts valid_device_id lookup insert text_beq
first_page-valid = refl

completed_for_good_example :
    let c = run (run new_coordinator completing) (records refresh ∷ []) in
    (lookup (device, pos 7) c.pending ≡ none)
    × (accept_page c first_page 30 no_answers ≡ (c, complete_answer c first_page refresh))
completed_for_good_example =
    completed_for_good completing (records refresh ∷ []) first_page 30 no_answers first_page-valid
      is_complete
