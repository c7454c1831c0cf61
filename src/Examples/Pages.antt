-- ===== src/Examples/Pages.antt =====
-- A buffer page with two entries, and a full one.
use mathlib.Core.Option
use pimlex_fast.Base.{ℕ, ◌≡◌, refl, [], ◌∷◌, true, arith}
use pimlex_fast.Search.{upper_bound, upper_bound_loop}
use pimlex_fast.Payload.{string_payload}
use pimlex_fast.Lock.{release_lock}
use pimlex_fast.Page.{
  Entry, BufPage, released, position, insert_page, update_key_page, is_sort, is_sort_list,
}
use pimlex_fast.Page.Insert.{IsValid, insert_after, insert_page-insert_after}
use pimlex_fast.Page.Lookup.{is_sort_iff}

abbrev entry_at : ℕ → Entry
entry_at k = record { buf_key = k; buf_payload = string_payload 97 }

abbrev pair_page : BufPage
pair_page = record { lock_ = 6; cells = entry_at 3 ∷ entry_at 7 ∷ [] }

pair_page-IsValid : IsValid pair_page
unfolding is_sort is_sort_list
pair_page-IsValid = record { few = omega arith; sorted = (is_sort_iff pair_page).0 refl }

insert_page_run :
    insert_page 5 (string_payload 97) pair_page
    ≡ (true, record { lock_ = 7; cells = entry_at 3 ∷ entry_at 5 ∷ entry_at 7 ∷ [] })
unfolding insert_page upper_bound upper_bound_loop position released release_lock
insert_page_run = refl

-- The payload goes to the entry below a key that is not there.
update_key_page_run :
    update_key_page 5 (string_payload 98) pair_page
    ≡ Option.some (
      true,
      record {
        lock_ = 7;
        cells = record { buf_key = 3; buf_payload = string_payload 98 } ∷ entry_at 7 ∷ [];
      },
    )
unfolding update_key_page upper_bound upper_bound_loop position released release_lock
update_key_page_run = refl

insert_page-insert_after_example :
    insert_page 5 (string_payload 97) pair_page
    ≡ (true, released pair_page (insert_after (entry_at 5) (pair_page.cells)))
insert_page-insert_after_example =
    insert_page-insert_after 5 (string_payload 97) pair_page pair_page-IsValid (omega arith)
