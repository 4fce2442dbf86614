-- ===== src/SafetyNumber/Examples.antt =====
-- The theorem on safety numbers at two keys, over the stand-ins of the ratchet's tests.
use nur_chat.Prelude.{◌≡◌}
use nur_chat.Text.{codes}
use nur_chat.Ratchet.Toy.{toy}
use nur_chat.SafetyNumber.{generate_safety_number, generate_safety_number-digits_comm}

generate_safety_number-digits_comm_example :
    (generate_safety_number toy (codes "0a1b") (codes "0c2d")).0
    ≡ (generate_safety_number toy (codes "0c2d") (codes "0a1b")).0
generate_safety_number-digits_comm_example =
    generate_safety_number-digits_comm toy (codes "0a1b") (codes "0c2d")
