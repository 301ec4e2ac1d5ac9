-- ===== src/Jit/Pcsp/RoundTrip.antt =====
-- The runtime reads back the stack-pointer deltas that `encodePCSP` was given.
use go_weave.Prelude.{
  ℕ, zero, suc, ◌+◌, ◌-◌, ◌*◌, ◌^◌, ◌≤◌, ◌<◌, ◌≡◌, ◌≢◌, refl, arith, false, not, ◌&&◌, Option, none,
  some, List, [], ◌∷◌, ◌++◌, ◌==◌, if◌then◌else◌, map, length,
}
use go_weave.Jit.Pcsp.{
  PcspEntry, u32, sub_u32, zig_zag, put_varint, varint_fuel, encode_entries, encode_pcsp,
}
use go_weave.Jit.Pcsp.Varint.{Read, get_varint, get-put_varint}
use go_weave.Jit.Pcsp.Zigzag.{un_zig_zag, un_zig_zag-zig_zag, delta_back}

-- One pair: the value and the program counter after it, and the bytes behind it; `none` at the end
-- mark, which is a zero anywhere but at the function's entry.
pub data Pair : Type 0 where
  pair : ℕ → ℕ → List ℕ → Pair
  end : Pair
  bad : Pair

abbrev read_pc : ℕ → ℕ → ℕ → Read → Pair
read_pc quantum val pc none = bad
read_pc quantum val pc (some (d, bs)) = pair val (pc + d * quantum) bs

abbrev read_val : ℕ → ℕ → ℕ → Read → Pair
read_val quantum val pc none = bad
read_val quantum val pc (some (uv, bs)) =
    if uv == 0 && not (pc == 0)
    then end
    else read_pc quantum (u32 (val + un_zig_zag uv)) pc (get_varint bs)

-- `step` of the runtime, as docs/en/04-pclntab.md gives it; `pc` counts from the function's entry.
unfoldable pub read_pair : ℕ → ℕ → ℕ → List ℕ → Pair
read_pair quantum val pc bs = read_val quantum val pc (get_varint bs)

-- All pairs up to the end mark. `none`: malformed, or more pairs than the fuel allows.
unfoldable pub decode_from : ℕ → ℕ → ℕ → ℕ → List ℕ → Option (List PcspEntry)
decode_from zero quantum val pc bs = none
decode_from (suc fuel) quantum val pc bs = elim (read_pair quantum val pc bs) [
  | end ↦ some []
  | bad ↦ none
  | pair v p r ↦ elim (decode_from fuel quantum v p r) [
    | none ↦ none
    | some es ↦ some (record { pc = p; spdelta = v } ∷ es)
  ]
]

unfoldable pub decode_pcsp : ℕ → ℕ → List ℕ → Option (List PcspEntry)
decode_pcsp fuel quantum bs = decode_from fuel quantum (2 ^ 32 - 1) 0 bs

-- Program counters grow, neighbouring deltas differ, and both are 32-bit values.
abbrev pub IsTable : ℕ → ℕ → List PcspEntry → Type 0
IsTable val pc [] = Unit
IsTable val pc (e ∷ es) =
    (pc < e.pc)
    × (e.pc < 2 ^ 32)
    × (e.spdelta < 2 ^ 32)
    × (e.spdelta ≢ val)
    × IsTable e.spdelta e.pc es

abbrev pub scale : ℕ → PcspEntry → PcspEntry
scale quantum e = record e { pc = e.pc * quantum }

advance : (a b q : ℕ) → a ≤ b → a * q + (b - a) * q ≡ b * q
advance a b q h = grind arith

read_entry :
    (quantum val pc : ℕ) (e : PcspEntry) (rest : List ℕ)
    → val < 2 ^ 32
    → pc < e.pc
    → e.pc < 2 ^ 32
    → e.spdelta < 2 ^ 32
    → e.spdelta ≢ val
    → read_pair quantum val (pc * quantum) (
        put_varint varint_fuel (zig_zag (sub_u32 e.spdelta val))
        ++ (put_varint varint_fuel (sub_u32 e.pc pc) ++ rest))
      ≡ pair e.spdelta (e.pc * quantum) rest
unfolding read_pair
read_entry quantum val pc e rest v lt p s ne =
    let z = un_zig_zag-zig_zag (sub_u32 e.spdelta val) (omega arith) in
    let value : u32 (val + un_zig_zag (zig_zag (sub_u32 e.spdelta val))) ≡ e.spdelta =
      rw z.0 (delta_back e.spdelta val s v) in
    let more : (zig_zag (sub_u32 e.spdelta val) == 0) ≡ false = ground (arith, z.2 (omega arith)) in
    let step : sub_u32 e.pc pc ≡ e.pc - pc = omega arith in
    let counter : pc * quantum + sub_u32 e.pc pc * quantum ≡ e.pc * quantum =
      rw step (advance pc e.pc quantum (omega arith)) in
    rw (
      get-put_varint 4 (zig_zag (sub_u32 e.spdelta val)) _ (omega (arith, z.1)),
      more,
      get-put_varint 4 (sub_u32 e.pc pc) rest (omega arith),
      value,
      counter,
    )

product_ne : (a b : ℕ) → a ≢ 0 → 0 < b → a * b ≢ 0
product_ne a b h k = grind arith

read_end :
    (quantum val pc fuel : ℕ)
    → pc ≢ 0
    → 0 < quantum
    → decode_from (suc fuel) quantum val (pc * quantum) (0 ∷ []) ≡ some []
unfolding decode_from read_pair get_varint
read_end quantum val pc fuel ne q =
    let far : (pc * quantum == 0) ≡ false = ground (arith, product_ne pc quantum ne q) in
    rw (far, decode_from)

decode_from-encode_entries :
    (fuel quantum val pc : ℕ) (es : List PcspEntry)
    → val < 2 ^ 32
    → 0 < quantum
    → (pc ≡ 0 → es ≢ [])
    → length es < fuel
    → IsTable val pc es
    → decode_from fuel quantum val (pc * quantum) (encode_entries val pc es)
      ≡ some (map (scale quantum) es)
unfolding decode_from encode_entries
decode_from-encode_entries zero quantum val pc es v q ne f t = absurd (omega arith)
decode_from-encode_entries (suc fuel) quantum val pc [] v q ne f t =
    read_end quantum val pc fuel (λ e. ne e refl) q
decode_from-encode_entries (suc fuel) quantum val pc (e ∷ es) v q ne f t = rw (
  read_entry quantum val pc e (encode_entries e.spdelta e.pc es) v t.0 t.1 t.2 t.3,
  decode_from,
  decode_from-encode_entries fuel quantum e.spdelta e.pc es t.2 q (omega arith) (omega arith) t.4,
)

-- For change points with growing program counters, the first beyond the entry, and neighbouring deltas
-- that differ, starting from -1, the runtime reads the table that `encodePCSP` writes to its end, and
-- finds every delta that was given, in order, at its program counter times the runtime's instruction
-- quantum.
pub decode_pcsp-encode_pcsp :
    (fuel quantum : ℕ) (es : List PcspEntry)
    → 0 < quantum
    → es ≢ []
    → length es < fuel
    → IsTable (2 ^ 32 - 1) 0 es
    → decode_pcsp fuel quantum (encode_pcsp es) ≡ some (map (scale quantum) es)
unfolding decode_pcsp encode_pcsp
decode_pcsp-encode_pcsp fuel quantum es q ne f t =
    let none_yet : 0 * quantum ≡ 0 = omega arith in
    rw none_yet at
      (decode_from-encode_entries fuel quantum (2 ^ 32 - 1) 0 es (omega arith) q (λ _. ne) f t)
