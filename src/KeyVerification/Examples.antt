-- ===== src/KeyVerification/Examples.antt =====
-- The theorem on the known keys at concrete calls.
use nur_chat.Prelude.{◌≡◌, List, [], ◌∷◌, none}
use nur_chat.Text.{codes}
use nur_chat.KeyVerification.{
  Event, checked, marked, check_key_status, run, status_of, trust_run, check-run,
}

abbrev calls : List Event
calls =
    checked (codes "ann") (codes "k1") (codes "t1")
    ∷ marked (codes "ann")
    ∷ checked (codes "bob") (codes "k2") (codes "t2")
    ∷ []

check-run_example :
    (check_key_status (codes "ann") (codes "k1") (codes "t3") (run calls none)).0
    ≡ status_of (codes "k1") (trust_run (codes "ann") calls none)
check-run_example = check-run calls (codes "ann") (codes "k1") (codes "t3")
