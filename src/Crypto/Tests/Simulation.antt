-- ===== src/Crypto/Tests/Simulation.antt =====
-- Witnesses for the simulated post-quantum primitives.
use qu_mail.Prelude.{Bytes, [], List, length, ◌∷◌, ◌≡◌, arith}
use qu_mail.Crypto.Pqc.{Caches, encap, decap}
use qu_mail.Crypto.Pqc.Laws.{Use, encapsulates, signs, use_all, decap-encap}

abbrev digest : Bytes → Bytes
digest bs = length bs ∷ []

abbrev keyed_digest : Bytes → Bytes → Bytes
keyed_digest k bs = length bs ∷ k

abbrev empty_caches : Caches
empty_caches = record { kyber = []; dilithium = [] }

abbrev uses : List Use
uses = encapsulates (5 ∷ []) (6 ∷ []) ∷ signs [] (7 ∷ []) (8 ∷ []) ∷ []

decap-encap_example :
    decap digest keyed_digest (1 ∷ []) (9 ∷ []) (
      use_all digest keyed_digest uses (encap digest keyed_digest (1 ∷ []) (2 ∷ []) empty_caches).1)
    ≡ 2 ∷ []
decap-encap_example =
    decap-encap digest keyed_digest (1 ∷ []) (2 ∷ []) (9 ∷ []) uses empty_caches (omega arith)
      ((λ e. ground arith), tt)
