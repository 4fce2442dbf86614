-- ===== src/Padding/Examples.antt =====
-- The theorems on padding at concrete texts, over the stand-ins of the ratchet's tests.
use nur_chat.Prelude.{◌≡◌, refl, length, ◌%◌, arith, ltb, if◌then◌else◌, none, some}
use nur_chat.Text.{codes}
use nur_chat.Ratchet.Toy.{toy, toy-AreLawful}
use nur_chat.Padding.{pad_bytes, unpad_bytes, unpad-pad, length-pad_bytes_blocks}

unpad-pad_example :
    unpad_bytes (pad_bytes toy 0 (codes "hi"))
    ≡ (if ltb 8192 (length (codes "hi")) then none else some (codes "hi"))
unpad-pad_example = unpad-pad toy toy-AreLawful 0 (codes "hi") (omega arith)

length-pad_bytes_blocks_example :
    (length (pad_bytes toy 0 (codes "yes")) ≡ length (pad_bytes toy 1 (codes "no")))
    × (length (pad_bytes toy 0 (codes "yes")) % 512 ≡ 0)
length-pad_bytes_blocks_example =
    length-pad_bytes_blocks toy toy-AreLawful 0 1 (codes "yes") (codes "no") refl
