-- ===== src/Tests/Pcsp.antt =====
-- The table of the amd64 trampoline with no pointer words.
use go_weave.Prelude.{ℕ, ◌≡◌, arith, some, List, [], ◌∷◌, map}
use go_weave.Jit.Pcsp.{PcspEntry, encode_pcsp}
use go_weave.Jit.Pcsp.RoundTrip.{decode_pcsp, scale, decode_pcsp-encode_pcsp}

abbrev at : ℕ → ℕ → PcspEntry
at p d = record { pc = p; spdelta = d }

abbrev stub : List PcspEntry
stub = at 1 0 ∷ at 11 8 ∷ at 79 216 ∷ at 80 8 ∷ at 81 0 ∷ []

decode_pcsp-encode_pcsp_example : decode_pcsp 6 1 (encode_pcsp stub) ≡ some (map (scale 1) stub)
decode_pcsp-encode_pcsp_example =
    decode_pcsp-encode_pcsp 6 1 stub (omega arith) (λ e. cc) (omega arith) (omega arith)
