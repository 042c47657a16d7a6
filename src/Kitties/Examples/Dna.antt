-- ===== src/Kitties/Examples/Dna.antt =====
-- The theorems about the dna of kitties (`pallets/kitties/src/lib.rs`) at concrete calls in the mock
-- runtime.
use my_substrate_kitties.Base.{◌≡◌, [], ◌∷◌, arith, get_or}
use Prim.Native.Nat.{bit_and, bit_or}
use my_substrate_kitties.Kitties.Helpers.{breed_dna}
use my_substrate_kitties.Kitties.Breeding.{get_or-breed_dna}

get_or-breed_dna_example :
    get_or (breed_dna 16 0 (240 ∷ 15 ∷ []) (255 ∷ 3 ∷ []) (1 ∷ 12 ∷ [])) 1 0
    ≡ bit_and 15 (bit_or 3 12)
get_or-breed_dna_example =
    get_or-breed_dna 16 0 1 (240 ∷ 15 ∷ []) (255 ∷ 3 ∷ []) (1 ∷ 12 ∷ []) (omega arith)
