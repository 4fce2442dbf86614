-- ===== src/BlobManager/Examples.antt =====
-- The theorem on the blob cache at a concrete download.
use nur_chat.Prelude.{refl, some, [], arith}
use nur_chat.Text.{codes}
use nur_chat.Assoc.{lookup}
use nur_chat.BlobManager.{State, IsCached, get_or_create_blob_url, get_or_create-IsCached}

abbrev empty_state : State
empty_state = record { cache = []; revoked = []; next_url = 7 }

get_or_create-IsCached_example :
    IsCached
      (codes "f1")
      7
      (get_or_create_blob_url (codes "f1") 0 (some (codes "data")) empty_state).1
unfolding get_or_create_blob_url lookup
get_or_create-IsCached_example =
    get_or_create-IsCached (codes "f1") 0 (some (codes "data")) empty_state 7 (omega arith) refl
