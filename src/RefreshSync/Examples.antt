-- ===== src/RefreshSync/Examples.antt =====
-- The theorems on the refresh lock with two tabs.
use nur_chat.Prelude.{◌≡◌, refl, ◌≢◌, true, false, none, some, List, [], ◌∷◌, arith}
use nur_chat.Text.{codes, same}
use nur_chat.Assoc.{lookup}
use nur_chat.RefreshSync.{
  Shared, Step, checks, writes, confirms, releases, run, NoneChecked, is_free, is_confirmed,
  write_lock, confirmed, try_acquire_refresh_lock, is_sibling_refreshing, release_refresh_lock,
  announce_refresh, repeat_announcement, wait_for_sibling_tokens, acquire-excludes, acquire-expired,
  wait-announce, is_foreign, is_owner,
}

abbrev start : Shared
start = record { lock = none; seq = none; writable = true; posts = []; timers = [] }

other_tabs : codes "tab1" ≢ codes "tab2"
other_tabs e = ground (arith, e)

won : (try_acquire_refresh_lock (codes "tab1") 10 start).0 ≡ true
unfolding try_acquire_refresh_lock is_free write_lock confirmed is_confirmed is_foreign is_owner
    same
won = refl

abbrev steps : List Step
steps =
    checks (codes "tab2") 20
    ∷ writes (codes "tab2")
    ∷ confirms (codes "tab2")
    ∷ releases (codes "tab2")
    ∷ []

none_checked :
    NoneChecked
      (codes "tab1")
      (record { shared = (try_acquire_refresh_lock (codes "tab1") 10 start).1; checked = [] })
unfolding lookup
none_checked tab ne = refl

acquire-excludes_example :
    let t =
      run steps
        (record { shared = (try_acquire_refresh_lock (codes "tab1") 10 start).1; checked = [] }) in
    (is_free (codes "tab2") 30 t.shared ≡ false)
    × (lookup (codes "tab2") t.checked ≡ none)
    × (is_confirmed (codes "tab2") t.shared ≡ false)
    × (is_sibling_refreshing (codes "tab2") 30 t.shared ≡ true)
    × ((release_refresh_lock (codes "tab1") t.shared).lock ≡ none)
acquire-excludes_example =
    acquire-excludes (codes "tab1") (codes "tab2") 10 30 steps start [] won none_checked
      ((other_tabs, omega arith), (other_tabs, (other_tabs, (other_tabs, tt)))) other_tabs
      (omega arith)

acquire-expired_example :
    (try_acquire_refresh_lock
      (codes "tab2")
      15010
      (try_acquire_refresh_lock (codes "tab1") 10 start).1).0
    ≡ true
acquire-expired_example =
    acquire-expired (codes "tab1") (codes "tab2") 10 15010 start won (omega arith)

wait-announce_example :
    let theirs : Shared =
      announce_refresh (codes "t2") (some (codes "tab2")) (codes "b") none start in
    (wait_for_sibling_tokens
        (some (codes "tab1"))
        (announce_refresh (codes "t1") (some (codes "tab1")) (codes "a") none theirs).posts
      ≡ some (codes "a", none))
    × (wait_for_sibling_tokens
          (some (codes "tab1"))
          (announce_refresh
            (codes "t1")
            (some (codes "tab1"))
            (codes "a")
            none
            (repeat_announcement (codes "t2") theirs)).posts
        ≡ some (codes "a", none))
unfolding wait_for_sibling_tokens
wait-announce_example =
    wait-announce (codes "t1") (codes "t2") (codes "tab1") (codes "tab2") (codes "a") (codes "b")
      none none start other_tabs refl
